-- ===== src/Stream/Transfer/Filling.antt =====
-- How copyData of stream/transfer/main.go gets on with its file while nobody closes the transfer.
use Prim.Native.String.{String}
use fuse_video_streamer.Base.{
  ℕ, ◌+◌, ◌-◌, ◌*◌, ◌≤◌, ◌≡◌, refl, ap, ◌∙◌, ◌⊎◌, inl, inr, false, none, some, List, [], ◌∷◌, ◌++◌,
  arith, length, length-append, drop, Option-cases,
}
use fuse_video_streamer.Go.{GoError, Error, eof}
use fuse_video_streamer.Stream.External.{Http, Ring, Serves, Buffers}
use fuse_video_streamer.Stream.Connection.{read}
use fuse_video_streamer.Stream.Transfer.Aligned.{hand, shift, place, take_up}
use fuse_video_streamer.Stream.Connection.Answering.{Answers, IsOpen, read-IsOpen}
use fuse_video_streamer.Stream.Transfer.{
  Transfer, StartPc, adding, spawning, selecting, stopping, CopyPc, unborn, checking, reading,
  writing, sending, halted, crashed, copy_step, after_bytes,
}

-- How many steps copyData still makes, with so many bytes behind those in hand.
abbrev pub fill_weight : CopyPc → ℕ → ℕ
fill_weight checking n = 4 + 3 * n
fill_weight reading n = 3 + 3 * n
fill_weight (writing bytes none) n = 5 + 3 * n
fill_weight (writing bytes (some e)) n = 2
fill_weight (sending e) n = 1
fill_weight _ n = 0

-- `start` stands at its select, or behind the case of `done`.
abbrev pub Selects : StartPc → Type 0
Selects adding = ⊥
Selects spawning = ⊥
Selects stopping = ⊥
Selects _ = Unit {0}

module _ {W B : Type 0} (file : List ℕ) (unread : W → ℕ → List ℕ) (first : B → ℕ)
    (window : B → List ℕ) (url : String) (start : ℕ) where
  -- What copyData stands in front of: an open connection, or the end of the file.
  abbrev pub Going : CopyPc → Transfer W B → List ℕ → Type 0
  Going checking t rest = IsOpen url file unread start t.network rest t.connection
  Going reading t rest = IsOpen url file unread start t.network rest t.connection
  Going (writing bytes none) t rest = IsOpen url file unread start t.network rest t.connection
  Going (writing bytes (some GoError.eof)) t rest = rest ≡ []
  Going (sending none) t rest = rest ≡ []
  Going halted t rest = rest ≡ []
  Going _ t rest = ⊥

  -- Until copyData has sent its result, `start` waits for it.
  abbrev pub Waits : CopyPc → Transfer W B → Type 0
  Waits halted t = Selects t.starter
  Waits _ t = (t.starter ≡ selecting) × (t.done ≡ [])

  abbrev pub Fills : CopyPc → Transfer W B → List ℕ → Type 0
  Fills pc t rest =
      (drop (first t.buffer) file ≡ window t.buffer ++ hand pc ++ rest)
      × (t.canceled ≡ false)
      × Going pc t rest
      × Waits pc t

  -- One step on, with less to do.
  abbrev pub FillsOn : ℕ → Transfer W B → Type 0
  FillsOn n t =
      (rest : List ℕ) × Fills t.copier t rest × (fill_weight t.copier (length rest) ≤ n - 1)

  -- What follows a read that gave bytes, or came to the end of the file.
  after-Fills :
      (t : Transfer W B) (rest rest' bytes : List ℕ) (e : Error)
      → drop (first t.buffer) file ≡ window t.buffer ++ [] ++ rest
      → t.canceled ≡ false
      → (t.starter ≡ selecting) × (t.done ≡ [])
      → rest ≡ bytes ++ rest'
      → IsOpen url file unread start t.network rest' t.connection
      → ((e ≡ none) × (1 ≤ length bytes)) ⊎ ((e ≡ some eof) × (rest' ≡ []))
      → FillsOn (3 + 3 * length rest) (record t { copier = after_bytes (bytes, e) })
  after-Fills t rest rest' [] none a on waits split opened gave = absurd (ground arith)
  after-Fills t rest rest' (x ∷ xs) none a on waits split opened gave = (
    rest',
    (
      a
          ∙ take_up file unread first window url start (writing (x ∷ xs) none) _ _ rest rest' refl
              split,
      on,
      opened,
      waits,
    ),
    omega (arith, ap length split, length-append xs rest'),
  )
  after-Fills t rest rest' [] (some GoError.eof) a on waits split opened gave = (
    rest',
    (
      a ∙ take_up file unread first window url start (sending none) _ [] rest rest' refl split,
      on,
      ground arith,
      waits,
    ),
    omega arith,
  )
  after-Fills t rest rest' (x ∷ xs) (some GoError.eof) a on waits split opened gave = (
    rest',
    (
      a
          ∙ take_up file unread first window url start (writing (x ∷ xs) (some eof)) _ _ rest rest'
              refl split,
      on,
      ground arith,
      waits,
    ),
    omega arith,
  )
  after-Fills t rest rest' bytes (some _) a on waits split opened gave = absurd (ground arith)

module _ {W B : Type 0} (file : List ℕ) (unread : W → ℕ → List ℕ) (first : B → ℕ)
    (window : B → List ℕ) (url : String) (start : ℕ) (http : Http W) (ring : Ring B)
    (serves : Serves http url file unread) (answers : Answers http unread)
    (buffers : Buffers ring first window)
    (writes : (b : B) (bytes : List ℕ) → (ring.write b bytes).0 ≡ none) where
  read-Fills :
      (t : Transfer W B) (rest : List ℕ)
      → Fills file unread first window url start reading t rest
      → FillsOn file unread first window url start
          (3 + 3 * length rest)
          (copy_step http ring t reading)
  unfolding copy_step
  read-Fills t rest (a, on, g, waits) = elim (Option-cases t.connection) [
    | inl nil ↦ absurd (rw nil at g)
    | inr (c, e) ↦
        let (rest', split, opened, gave) =
          read-IsOpen http url file unread start serves answers t.network c (64 * 1024) rest
            (omega arith) (rw e at g) in
        rw (e, copy_step)
          (after-Fills file unread first window url start
            (record t {
              network = (read http t.network c (64 * 1024)).2;
              connection = some (read http t.network c (64 * 1024)).1;
            })
            rest rest' (read http t.network c (64 * 1024)).0.0
            (read http t.network c (64 * 1024)).0.1 a on waits split opened gave)
  ]

  write-Fills :
      (t : Transfer W B) (bytes rest : List ℕ) (e : Error)
      → Fills file unread first window url start (writing bytes e) t rest
      → FillsOn file unread first window url start
          (fill_weight (writing bytes e) (length rest))
          (copy_step http ring t (writing bytes e))
  unfolding copy_step
  write-Fills t bytes rest none (a, on, g, waits) =
      let (dropped, split, moved) = buffers.write_appends t.buffer bytes (writes t.buffer bytes) in
      rw (writes t.buffer bytes) (
        rest,
        (
          place file unread first window url start checking _ _ rest refl (
              rw moved (shift file unread first window url start _ _ _ bytes dropped rest a split)),
          on,
          g,
          waits,
        ),
        omega arith,
      )
  write-Fills t bytes rest (some GoError.eof) (a, on, g, waits) =
      let (dropped, split, moved) = buffers.write_appends t.buffer bytes (writes t.buffer bytes) in
      rw (writes t.buffer bytes) (
        rest,
        (
          place file unread first window url start (sending none) _ _ rest refl (
              rw moved (shift file unread first window url start _ _ _ bytes dropped rest a split)),
          on,
          g,
          waits,
        ),
        omega arith,
      )
  write-Fills t bytes rest (some _) (a, on, g, waits) = absurd g

  pub copy_step-Fills :
      (t : Transfer W B) (pc : CopyPc) (rest : List ℕ)
      → t.copier ≡ pc
      → Fills file unread first window url start pc t rest
      → FillsOn file unread first window url start
          (fill_weight pc (length rest))
          (copy_step http ring t pc)
  unfolding copy_step
  copy_step-Fills t unborn rest e (a, on, g, waits) = absurd g
  copy_step-Fills t checking rest e (a, on, g, waits) =
      rw (on, copy_step) (rest, (a, refl, g, waits), omega arith)
  copy_step-Fills t reading rest e v = read-Fills t rest v
  copy_step-Fills t (writing bytes r) rest e v = write-Fills t bytes rest r v
  copy_step-Fills t (sending none) rest e (a, on, g, (selects, empty)) =
      rw (empty, copy_step) (rest, (a, on, g, rw selects tt), omega arith)
  copy_step-Fills t (sending (some r)) rest e (a, on, g, waits) = absurd g
  copy_step-Fills t halted rest e v = (rest, rw e v, rw e (omega arith))
  copy_step-Fills t crashed rest e (a, on, g, waits) = absurd g
