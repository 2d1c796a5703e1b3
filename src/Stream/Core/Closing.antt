-- ===== src/Stream/Core/Closing.antt =====
-- Theorems about `Close` of stream/main.go.
use fuse_video_streamer.Base.{
  ℕ, ◌≡◌, refl, ap, inl, inr, Bool, true, false, Option, none, some, List, [], ◌∷◌, arith,
  Bool-cases,
}
use fuse_video_streamer.Base.Int.{ℤ}
use fuse_video_streamer.Go.{
  GoError, Error, failure, wrapped, stream_is_closed, error_closing_buffer,
}
use fuse_video_streamer.Stream.External.{Http, Ring}
use fuse_video_streamer.Stream.Transfer.{Transfer, Move}
use fuse_video_streamer.Stream.Core.{
  Stream, close_former, close_transfer, close, gives, awaits, panicked, Event, occur, occurs,
  read_buffer, read_at_begin, read_at_end, read_at,
}

module _ {W B : Type 0} (http : Http W) (ring : Ring B) where
  -- The stream is shut, and nothing of it is left to run on: no buffer and no transfer.
  abbrev pub Shut : Option (Error × Stream W B) → Type 0
  Shut none = Unit {0}
  Shut (some (e, s)) = (e ≡ none) × (s.closed ≡ true) × (s.has_buffer ≡ false) × (s.transfer ≡ none)

  close_transfer-Shut :
      (ms : List Move) (s : Stream W B) (t : Option (Transfer W B))
      → s.transfer ≡ t
      → s.closed ≡ true
      → s.has_buffer ≡ false
      → Shut (close_transfer http ring (close_former http ring ms s t))
  unfolding close_transfer close_former
  close_transfer-Shut ms s none e c b = (refl, c, b, e)
  close_transfer-Shut ms s (some t) e c b = ground arith

  -- On an open stream whose ring buffer closes without an error, a Close that returns reports no
  -- error, and leaves neither a buffer nor a transfer.
  pub close-Shut :
      (ms : List Move) (s : Stream W B)
      → s.closed ≡ false
      → (ring.close_ring s.ring).0 ≡ none
      → Shut (close http ring ms s)
  unfolding close
  close-Shut ms s c ok = elim (Bool-cases s.has_buffer) [
    | inl b ↦ simp (c, b, ok) (close_transfer-Shut ms _ s.transfer refl refl refl)
    | inr b ↦ simp (c, b) (close_transfer-Shut ms _ s.transfer refl refl refl)
  ]

  -- If the ring buffer of an open stream that has it fails to close, Close returns the error and
  -- leaves the transfer as it is, and a second Close does nothing.
  pub close_failure_leaks_transfer :
      (ms later : List Move) (s : Stream W B) (x : GoError)
      → s.closed ≡ false
      → s.has_buffer ≡ true
      → (ring.close_ring s.ring).0 ≡ some x
      → (s' : Stream W B) × (close http ring ms s
          ≡ some (some (wrapped error_closing_buffer x), s'))
        × (s'.transfer ≡ s.transfer)
        × (close http ring later s' ≡ some (none, s'))
  unfolding close
  close_failure_leaks_transfer ms later s x c b e = (
    record s { closed = true; canceled = true; ring = (ring.close_ring s.ring).1 },
    simp (c, b, e),
    refl,
    refl,
  )

  begin-closed :
      (ms : List Move) (s : Stream W B) (n : ℕ) (seek : ℤ)
      → s.closed ≡ true
      → read_at_begin http ring ms s n seek ≡ some (gives [] (some (failure stream_is_closed)), s)
  unfolding read_at_begin
  begin-closed ms s n seek c = simp c

  -- A read of a closed stream fails, and gives nothing.
  pub read_at-closed :
      (ms : List Move) (es : List Event) (waited : Bool) (s : Stream W B) (n : ℕ) (seek : ℤ)
      → s.closed ≡ true
      → read_at http ring ms es waited s n seek
        ≡ some (gives [] (some (failure stream_is_closed)), s)
  unfolding read_at
  read_at-closed ms es waited s n seek c = rw (begin-closed ms s n seek c, read_at)

  end_without_buffer :
      (waited : Bool) (s : Stream W B) (n : ℕ) (seek : ℤ)
      → s.closed ≡ true
      → s.has_buffer ≡ false
      → read_at_end http ring waited s n seek ≡ panicked
  unfolding read_at_end read_buffer
  end_without_buffer waited s n seek c b = ground arith

  -- When an open stream is closed, with success, while a ReadAt waits for a position, that ReadAt
  -- panics at the nil buffer, whatever WaitForPosition returned.
  pub close_while_waiting_panics :
      (ms during : List Move) (waited : Bool) (s s' s'' : Stream W B) (n : ℕ) (seek requested : ℤ)
      → read_at_begin http ring ms s n seek ≡ some (awaits requested, s')
      → s'.closed ≡ false
      → (ring.close_ring s'.ring).0 ≡ none
      → close http ring during s' ≡ some (none, s'')
      → read_at http ring ms (Event.closes during ∷ []) waited s n seek ≡ some (panicked, s'')
  unfolding read_at occurs occur
  close_while_waiting_panics ms during waited s s' s'' n seek requested began unshut ok shut =
      let (none_e, closed, buffer, transfer) = rw shut at (close-Shut during s' unshut ok) in
      rw (began, read_at, shut)
        (ap (λ p. some (p, s'')) (end_without_buffer waited s'' n seek closed buffer))
