-- ===== src/Stream/Transfer/Copying.antt =====
-- Lemmas about the steps of `copyData` in stream/transfer/main.go and the file's bytes.
use Prim.Native.String.{String}
use fuse_video_streamer.Base.{
  ℕ, ◌*◌, ◌≡◌, refl, ◌∙◌, inl, inr, some, List, [], ◌∷◌, ◌++◌, append_assoc, drop, Option-cases,
  Bool-cases,
}
use fuse_video_streamer.Go.{Error}
use fuse_video_streamer.Stream.External.{Http, Ring, Serves, Buffers}
use fuse_video_streamer.Stream.Connection.{Connection, read}
use fuse_video_streamer.Stream.Connection.Laws.{pending, read-InOrder, read-closed}
use fuse_video_streamer.Stream.Transfer.{
  Transfer, CopyPc, unborn, checking, reading, writing, sending, halted, crashed, copy_step,
  send_step, after_read, after_bytes,
}
use fuse_video_streamer.Stream.Transfer.Aligned.{
  Follows, Continues, Aligned, hand-after_read, hand-after_bytes, shift, reading-Follows, place,
  take_up,
}

module _ {W B : Type 0} (file : List ℕ) (unread : W → ℕ → List ℕ) (first : B → ℕ)
    (window : B → List ℕ) (url : String) (start : ℕ) (http : Http W) (ring : Ring B)
    (serves : Serves http url file unread) (buffers : Buffers ring first window) where
  write-Aligned :
      (t : Transfer W B) (bytes : List ℕ) (e : Error)
      → t.copier ≡ writing bytes e
      → Aligned file unread first window url start t
      → Aligned file unread first window url start (copy_step http ring t (writing bytes e))
  unfolding copy_step
  write-Aligned t bytes e pc (rest, a, f) = elim (Option-cases (ring.write t.buffer bytes).0) [
    | inl ok ↦
        let (dropped, split, moved) = buffers.write_appends t.buffer bytes ok in
        rw ok (
          rest,
          place file unread first window url start (after_read e) _ _ rest
              (hand-after_read file unread first window url start e)
              (rw moved (
                shift file unread first window url start _ _ _ bytes dropped rest (rw pc at a)
                  split)),
          inr (
              reading-Follows file unread first window url start (writing bytes e) _ rest _ refl
                (rw pc at f)),
        )
    | inr (x, bad) ↦
        let (kept, same) = buffers.failed_write_keeps t.buffer bytes x bad in
        rw bad (
          bytes ++ rest,
          place file unread first window url start (sending (some x)) _ _ (bytes ++ rest) refl
              (rw (kept, same) ((rw pc at a) ∙ append_assoc _ bytes rest)),
          inl refl,
        )
  ]

  -- One read of a connection that follows takes its bytes off the rest.
  read-Follows :
      (w : W) (c : Connection) (n : ℕ) (rest : List ℕ)
      → Follows file unread first window url start w rest (some c)
      → let (result, c', w') = read http w c n in
        (rest' : List ℕ) × (rest ≡ result.0 ++ rest')
        × Follows file unread first window url start w' rest' (some c')
  read-Follows w c n rest (inl closed) = rw (read-closed http w c n closed) (rest, refl, inl closed)
  read-Follows w c n rest (inr (is, at_start, here)) =
      let (order, kept, same) =
        read-InOrder http url file unread serves w c n start here at_start in
      (
        pending file unread start (read http w c n).2 (read http w c n).1.body,
        is ∙ order,
        inr (refl, kept, same),
      )

  read-Aligned :
      (t : Transfer W B)
      → t.copier ≡ reading
      → Aligned file unread first window url start t
      → Aligned file unread first window url start (copy_step http ring t reading)
  unfolding copy_step
  read-Aligned t pc (rest, a, f) = elim (Option-cases t.connection) [
    | inl nil ↦ rw (nil, copy_step) (rest, rw pc at a, inl refl)
    | inr (c, e) ↦
        let (rest', split, f') = read-Follows t.network c (64 * 1024) rest (
          reading-Follows file unread first window url start reading t.network rest (some c) refl
            (rw (pc, e) at f)) in
        rw (e, copy_step)
          (
            rest',
            (rw pc at a)
                ∙ take_up file unread first window url start
                    (after_bytes (read http t.network c (64 * 1024)).0) _ _ rest rest'
                    (hand-after_bytes file unread first window url start
                      (read http t.network c (64 * 1024)).0)
                    split,
            inr f',
          )
  ]

  send-Aligned :
      (t : Transfer W B) (r : Error) (done : List Error)
      → (rest : List ℕ) × (drop (first t.buffer) file ≡ window t.buffer ++ [] ++ rest)
        × Continues file unread first window url start (sending r) t.network rest t.connection
      → t.copier ≡ sending r
      → Aligned file unread first window url start (send_step http ring t r done)
  unfolding send_step
  send-Aligned t r [] (rest, a, f) e = (rest, a, inl refl)
  send-Aligned t r (x ∷ full) (rest, a, f) e = (rest, rw e a, rw e f)

  pub copy_step-Aligned :
      (t : Transfer W B) (pc : CopyPc)
      → t.copier ≡ pc
      → Aligned file unread first window url start t
      → Aligned file unread first window url start (copy_step http ring t pc)
  unfolding copy_step
  copy_step-Aligned t unborn e v = v
  copy_step-Aligned t checking e (rest, a, f) = elim (Bool-cases t.canceled) [
    | inl on ↦ rw (on, copy_step) (rest, rw e at a, inl refl)
    | inr off ↦
        rw (off, copy_step)
          (
            rest,
            rw e at a,
            inr (
                reading-Follows file unread first window url start checking t.network rest
                  t.connection refl (rw e at f)),
          )
  ]
  copy_step-Aligned t reading e v = read-Aligned t e v
  copy_step-Aligned t (writing bytes r) e v = write-Aligned t bytes r e v
  copy_step-Aligned t (sending r) e (rest, a, f) =
      send-Aligned t r t.done (rest, rw e at a, inl refl) e
  copy_step-Aligned t halted e v = v
  copy_step-Aligned t crashed e v = v
