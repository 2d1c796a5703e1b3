-- ===== src/Fuse/Streamable/Handle/Replies.antt =====
-- What the replies of filesystem/server/provider/fuse/filesystem/streamable/handle/main.go point to.
use mathlib.Core.Path.{subst}
use fuse_video_streamer.Base.{
  ℕ, ◌≡◌, refl, sym, ap, ◌∙◌, inl, inr, Option, none, some, List, get_elem?, set, ltb, Bool-cases,
  Option-cases,
}
use fuse_video_streamer.Base.Int.{ℤ, signed64}
use fuse_video_streamer.Go.{GoError, eof}
use fuse_video_streamer.Stream.External.{Http, Ring}
use fuse_video_streamer.Stream.Transfer.{Move}
use fuse_video_streamer.Stream.Core.{Progress, gives, awaits, panicked, read_at}
use fuse_video_streamer.Fuse.Pool.{Buffer, BufferPool, get_buffer, put_buffer}
use fuse_video_streamer.Fuse.Pool.Sizes.{IsSized, get_buffer-Hands, put_buffer-get_buffer}
use fuse_video_streamer.Fuse.Streamable.Handle.{
  Handle, World, Circumstances, ReadReturn, replies, fails, store, close_stream, close, give_up,
  deliver, read_stream, read,
}

module _ {W B : Type 0} (http : Http W) (ring : Ring B) where
  -- A reply is at the address of the buffer `b`, which is back in the pool.
  abbrev Pooled : Buffer → BufferPool → Option (ReadReturn × Handle × World W B) → Type 0
  Pooled b pool (some (replies a k, h, w)) = (a ≡ b.address) × (w.pool ≡ put_buffer pool (some b))
  Pooled b pool _ = Unit {0}

  give_up-Pooled :
      (pool : BufferPool) (ms : List Move) (w : World W B) (h : Handle) (i : ℕ) (b : Buffer)
      (e : GoError)
      → Pooled b pool (give_up http ring ms w h i b e)
  unfolding give_up
  give_up-Pooled pool ms w h i b e =
      elim (close_stream http ring ms w i)
        as (λ x. Pooled b pool (elim x [
          | none ↦ none
          | some w' ↦ some (
            fails e,
            record h { stream = none },
            record w' { pool = put_buffer w'.pool (some b) },
          )
        ])) [ none ↦ tt | some w' ↦ tt ]

  deliver-Pooled :
      (ms : List Move) (w : World W B) (h : Handle) (i : ℕ) (b : Buffer) (p : Progress)
      → Pooled b w.pool (deliver http ring ms w h i b p)
  unfolding deliver
  deliver-Pooled ms w h i b panicked = tt
  deliver-Pooled ms w h i b (awaits requested) = tt
  deliver-Pooled ms w h i b (gives bytes none) = (refl, refl)
  deliver-Pooled ms w h i b (gives bytes (some eof)) = (refl, refl)
  deliver-Pooled ms w h i b (gives bytes (some e)) =
      give_up-Pooled w.pool ms (record w { memory = store w.memory b.address bytes }) h i b e

  read_stream-Pooled :
      (c : Circumstances) (w : World W B) (h : Handle) (i n : ℕ) (offset : ℤ)
      → let (b, pool) = get_buffer c.choice w.pool (signed64 h.node_size) in
        Pooled b pool (read_stream http ring c w h i n offset)
  unfolding read_stream
  read_stream-Pooled c w h i n offset =
      let (b, pool) = get_buffer c.choice w.pool (signed64 h.node_size) in
      elim (Bool-cases (ltb b.len n)) [
        | inl e ↦ rw e tt
        | inr e ↦ elim (Option-cases (get_elem? w.streams i)) [
          | inl q ↦ rw (e, q) tt
          | inr (s, q) ↦
              elim (Option-cases (read_at http ring c.starting c.events c.waited s n offset)) [
                | inl r ↦ rw (e, q, r) tt
                | inr ((p, s'), r) ↦
                    rw (e, q, r)
                      (deliver-Pooled c.closing
                        (record w { pool = pool; streams = set w.streams i s' }) h i b p)
              ]
        ]
      ]

  read-Pooled :
      (c : Circumstances) (w : World W B) (h : Handle) (n : ℕ) (offset : ℤ)
      → let (b, pool) = get_buffer c.choice w.pool (signed64 h.node_size) in
        Pooled b pool (read http ring c w h n offset)
  unfolding read
  read-Pooled c w h n offset = elim (Bool-cases h.closed) [
    | inl e ↦ simp e tt
    | inr e ↦ elim (Option-cases h.stream) [
      | inl q ↦ elim (Option-cases (close http ring c.closing w h)) [
        | inl r ↦ simp (e, q, r) tt
        | inr ((h', w'), r) ↦ simp (e, q, r) tt
      ]
      | inr (i, q) ↦ simp (e, q) (read_stream-Pooled c w h i n offset)
    ]
  ]

  -- From a sound pool, when a Read of a streamable handle has replied and the pool hands out the
  -- buffer that was put last, the reply of the next Read, of any handle, lies at the address of
  -- the first reply.
  pub second_read_overwrites_first_reply :
      (c c' : Circumstances) (w w' w'' : World W B) (g h g' h' : Handle) (n n' : ℕ)
      (offset offset' : ℤ) (a a' k k' : ℕ)
      → IsSized w.pool
      → read http ring c w g n offset ≡ some (replies a k, g', w')
      → c'.choice ≡ some 0
      → read http ring c' w' h n' offset' ≡ some (replies a' k', h', w'')
      → a' ≡ a
  second_read_overwrites_first_reply c c' w w' w'' g h g' h' n n' offset offset' a a' k k' v first
        last second =
      let (b, pool) = get_buffer c.choice w.pool (signed64 g.node_size) in
      let (len, sized, out, others) = get_buffer-Hands c.choice w.pool (signed64 g.node_size) v in
      let (is_a, back) = subst (Pooled b pool) first (read-Pooled c w g n offset) in
      let again =
        subst
          (λ r.
            Pooled (get_buffer c'.choice w'.pool (signed64 h.node_size)).0
              (get_buffer c'.choice w'.pool (signed64 h.node_size)).1 r)
          second (read-Pooled c' w' h n' offset') in
      let same = (put_buffer-get_buffer pool b (signed64 h.node_size) sized out len).1 in
      again.0
      ∙ ap (λ x. (get_buffer x w'.pool (signed64 h.node_size)).0.address) last
      ∙ ap (λ p. (get_buffer (some 0) p (signed64 h.node_size)).0.address) back
      ∙ ap (λ r. r.0.address) same
      ∙ sym is_a
