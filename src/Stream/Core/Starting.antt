-- ===== src/Stream/Core/Starting.antt =====
-- Theorems about `newTransfer` of stream/main.go: where the new transfer starts.
use fuse_video_streamer.Base.{◌≡◌, true, false, Option, none, some, List, arith}
use fuse_video_streamer.Base.Int.{ℤ}
use fuse_video_streamer.Go.{ok}
use fuse_video_streamer.Stream.Size.{stream_start_position}
use fuse_video_streamer.Stream.Size.Bounds.{stream_start_position_nonneg}
use fuse_video_streamer.Stream.External.{Http, Ring}
use fuse_video_streamer.Stream.Connection.Laws.{new_connection-nonneg, fresh}
use fuse_video_streamer.Stream.Transfer.{Transfer, Move}
use fuse_video_streamer.Stream.Transfer
use fuse_video_streamer.Stream.Core.{Stream, new_transfer, start_transfer, close_former}

module _ {W B : Type 0} (http : Http W) (ring : Ring B) where
  -- The stream behind the `Close` of its transfer, with the new one.
  abbrev pub restarted : Stream W B → ℤ → Stream W B
  restarted s start =
      let b = ring.reset_to_position s.ring start in
      record s { ring = b; transfer = some (Transfer.new_transfer s.network b (fresh s.url start)) }

  close_former-fields :
      (ms : List Move) (s : Stream W B) (t : Option (Transfer W B)) {s' : Stream W B}
      → close_former http ring ms s t ≡ some s'
      → (s'.url ≡ s.url)
        × (s'.size ≡ s.size)
        × (s'.closed ≡ s.closed)
        × (s'.has_buffer ≡ s.has_buffer)
  unfolding close_former
  close_former-fields ms s none e = ground arith
  close_former-fields ms s (some t) e = ground arith

  -- On an open stream with a buffer, once the Close of the old transfer has returned, newTransfer
  -- does not fail, and its connection asks for the position that the ring buffer was reset to.
  pub new_transfer_starts :
      (ms : List Move) (s s' : Stream W B) (seek : ℤ)
      → s.closed ≡ false
      → s.has_buffer ≡ true
      → close_former http ring ms s s.transfer ≡ some s'
      → new_transfer http ring ms s seek
        ≡ some (ok tt, restarted s' (stream_start_position s.size seek))
  unfolding new_transfer start_transfer
  new_transfer_starts ms s s' seek c b e =
      let (url, size, closed, buffer) = close_former-fields ms s s.transfer e in
      rw (
        c,
        b,
        e,
        new_transfer,
        ← url,
        new_connection-nonneg s'.url (stream_start_position s.size seek)
            (stream_start_position_nonneg s.size seek),
      )

  -- While the `Close` of the old transfer has not returned, `newTransfer` has not either.
  pub new_transfer_blocked :
      (ms : List Move) (s : Stream W B) (seek : ℤ)
      → s.closed ≡ false
      → s.has_buffer ≡ true
      → close_former http ring ms s s.transfer ≡ none
      → new_transfer http ring ms s seek ≡ none
  unfolding new_transfer
  new_transfer_blocked ms s seek c b e = rw (c, b, e, new_transfer)
