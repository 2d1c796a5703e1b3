-- ===== src/Stream/Transfer/Races.antt =====
-- Theorems about interleavings of `Close` with the goroutines of stream/transfer/main.go.
use fuse_video_streamer.Base.{ℕ, ◌+◌, ◌≡◌, true, none, List, [], ◌∷◌, ◌++◌, arith, length}
use fuse_video_streamer.Base.Int.{pos}
use fuse_video_streamer.Go.{Error}
use fuse_video_streamer.Stream.External.{Http, Ring, Buffers}
use fuse_video_streamer.Stream.Transfer.Threads.{Inv}
use fuse_video_streamer.Stream.Transfer.{
  Transfer, selecting, ended, reading, writing, crashed, swapping, returned, Move, starts, copies,
  closes, start_step, copy_step, close_step, step, run,
}

-- `Close` up to its wait, then `start` down to the nil connection.
abbrev pub close_then_stop : List Move
close_then_stop = closes ∷ closes ∷ closes ∷ starts true ∷ starts true ∷ []

-- `Close` and `start`, both to their end.
abbrev pub close_then_end : List Move
close_then_end =
    closes ∷ closes ∷ closes ∷ starts true ∷ starts true ∷ starts true ∷ starts true ∷ closes ∷ []

module _ {W B : Type 0} (http : Http W) (ring : Ring B) where
  stopped :
      (t : Transfer W B)
      → Inv t
      → t.starter ≡ selecting
      → t.copier ≡ reading
      → t.closer ≡ swapping
      → let t' = run http ring close_then_stop t in (t'.copier ≡ reading) × (t'.connection ≡ none)
  unfolding run step start_step close_step
  stopped t v s c x = ground arith

  -- From a state with start at its select, copyData about to read and Close not called, there is a
  -- schedule of Close and start after which the read of copyData panics at the nil connection.
  pub close_while_reading_panics :
      (t : Transfer W B)
      → Inv t
      → t.starter ≡ selecting
      → t.copier ≡ reading
      → t.closer ≡ swapping
      → (step http ring copies (run http ring close_then_stop t)).copier ≡ crashed
  unfolding step copy_step
  close_while_reading_panics t v s c x = ground (arith, stopped t v s c x)

  ended_with :
      (t : Transfer W B) (bytes : List ℕ) (e : Error)
      → Inv t
      → t.starter ≡ selecting
      → t.copier ≡ writing bytes e
      → t.closer ≡ swapping
      → let t' = run http ring close_then_end t in
        (t'.closer ≡ returned) × (t'.starter ≡ ended) × (t'.copier ≡ writing bytes e)
  unfolding run step start_step close_step
  ended_with t bytes e v s c x = ground arith

  resumed :
      (t : Transfer W B) (bytes : List ℕ) (e : Error) (b : B)
      → t.copier ≡ writing bytes e
      → (step http ring copies (record t { buffer = b })).buffer ≡ (ring.write b bytes).1
  unfolding step copy_step
  resumed t bytes e b c = ground arith

  module _ (first : B → ℕ) (window : B → List ℕ) (buffers : Buffers ring first window) where
    -- From a state with start at its select, copyData about to write and Close not called, there
    -- is a schedule after which Close has returned and start is at its end while copyData has its
    -- bytes in hand; when the ring buffer is then reset to a position, a write that succeeds puts
    -- those bytes at that position, whatever they are.
    pub close_leaves_stale_write :
        (t : Transfer W B) (bytes : List ℕ) (e : Error) (p : ℕ)
        → Inv t
        → t.starter ≡ selecting
        → t.copier ≡ writing bytes e
        → t.closer ≡ swapping
        → let t' = run http ring close_then_end t in
          let b = ring.reset_to_position t'.buffer (pos p) in
          let t'' = step http ring copies (record t' { buffer = b }) in
          (ring.write b bytes).0 ≡ none
          → (t'.closer ≡ returned)
            × (t'.starter ≡ ended)
            × ((dropped : List ℕ) × (bytes ≡ dropped ++ window t''.buffer)
                × (first t''.buffer ≡ p + length dropped))
    close_leaves_stale_write t bytes e p v s c x ok =
        let t' = run http ring close_then_end t in
        let b = ring.reset_to_position t'.buffer (pos p) in
        let (back, over, held) = ended_with t bytes e v s c x in
        let (begins, empty) = buffers.reset_empties t'.buffer p in
        let (dropped, split, moved) = buffers.write_appends b bytes ok in
        (
          back,
          over,
          rw (resumed t' bytes e b held) (dropped, (rw empty at split), rw begins at moved),
        )
