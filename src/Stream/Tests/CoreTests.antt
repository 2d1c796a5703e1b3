-- ===== src/Stream/Tests/CoreTests.antt =====
-- The theorems about the Stream, at concrete inputs.
use fuse_video_streamer.Base.{ℕ, ◌≡◌, refl, true, false, Option, none, some, List, [], ◌∷◌}
use fuse_video_streamer.Base.Int.{pos, ◌+ℤ◌, ◌-ℤ◌}
use fuse_video_streamer.Go.{Error, wrapped, error_closing_buffer, external}
use fuse_video_streamer.Stream.Size.{stream_start_position}
use fuse_video_streamer.Stream.External.{Ring}
use fuse_video_streamer.Stream.Connection.{new_connection, read, close}
use fuse_video_streamer.Stream.Transfer.{
  Move, starts, copies, closes, step, run, start_step, copy_step, close_step,
}
use fuse_video_streamer.Stream.Transfer
use fuse_video_streamer.Stream.Core.{
  Stream, new, close_former, new_transfer, start_transfer, Progress, gives, awaits, panicked, Event,
  moves, read_at, read_at_begin, read_at_end, request, read_buffer, occurs, occur,
}
use fuse_video_streamer.Stream.Core
use fuse_video_streamer.Stream.Core.Starting.{restarted}
use fuse_video_streamer.Stream.Core.Placed.{new-IsPlaced}
use fuse_video_streamer.Stream.Core.Reading.{RightResult, read_at-RightResult}
use fuse_video_streamer.Stream.Core.Closing.{
  Shut, close-Shut, close_failure_leaks_transfer, close_while_waiting_panics,
}
use fuse_video_streamer.Stream.Tests.Setup.{
  file, http, unread, serves, Buffer, ring, first_of_buffer, window_of, buffers,
}

abbrev movie : Stream (List ℕ) Buffer
movie = new http ring "1" [] "url" (pos 5)

-- While the read waits, `start` spawns `copyData`, which reads and writes.
abbrev meanwhile : List Event
meanwhile =
    moves (starts true) ∷ moves (starts true) ∷ moves copies ∷ moves copies ∷ moves copies ∷ []

abbrev progress_of : Option (Progress × Stream (List ℕ) Buffer) → Option Progress
progress_of none = none
progress_of (some (r, s)) = some r

-- Two bytes at the position 1.
movie_read :
    progress_of (read_at http ring [] meanwhile true movie 2 (pos 1))
    ≡ some (gives (11 ∷ 12 ∷ []) none)
unfolding read_at read_at_begin read_at_end request read_buffer occurs occur new new_transfer
    start_transfer close_former stream_start_position new_connection Transfer.new_transfer step
    start_step copy_step read ◌+ℤ◌ ◌-ℤ◌
movie_read = refl

read_at-RightResult_example :
    RightResult file unread first_of_buffer window_of "url" 1 2
      (read_at http ring [] meanwhile true movie 2 (pos 1))
unfolding new
read_at-RightResult_example =
    read_at-RightResult file unread first_of_buffer window_of "url" http ring (serves "url") buffers
      [] meanwhile true movie 2 1 tt tt
      (new-IsPlaced file unread first_of_buffer window_of "url" http ring (serves "url") buffers "1"
        [] 5)

close-Shut_example : Shut http ring (Core.close http ring [] movie)
unfolding new
close-Shut_example = close-Shut http ring [] movie refl refl

-- The same ring buffer, which does not close.
abbrev stuck : Ring Buffer
stuck = record ring { close_ring = λ b. (some (external 5), b) }

close_failure_leaks_transfer_example :
    let s = new http stuck "1" [] "url" (pos 5) in
    (s' : Stream (List ℕ) Buffer) × (Core.close http stuck [] s
      ≡ some (some (wrapped error_closing_buffer (external 5)), s'))
    × (s'.transfer ≡ s.transfer)
    × (Core.close http stuck [] s' ≡ some (none, s'))
unfolding new
close_failure_leaks_transfer_example =
    close_failure_leaks_transfer http stuck [] [] (new http stuck "1" [] "url" (pos 5)) (external 5)
      refl refl refl

-- A read of two bytes at the position 1 waits; then the stream is closed.
abbrev waiting_movie : Stream (List ℕ) Buffer
waiting_movie = restarted http ring movie (stream_start_position (pos 5) (pos 1))

abbrev closing_moves : List Move
closing_moves = closes ∷ closes ∷ closes ∷ closes ∷ []

abbrev stream_of : Option (Error × Stream (List ℕ) Buffer) → Stream (List ℕ) Buffer
stream_of none = movie
stream_of (some (e, s)) = s

abbrev closed_movie : Stream (List ℕ) Buffer
closed_movie = stream_of (Core.close http ring closing_moves waiting_movie)

close_while_waiting_panics_example :
    read_at http ring [] (Event.closes closing_moves ∷ []) false movie 2 (pos 1)
    ≡ some (panicked, closed_movie)
unfolding read_at_begin request new new_transfer start_transfer close_former stream_start_position
    new_connection Transfer.new_transfer step run close_step close ◌+ℤ◌ ◌-ℤ◌ Core.close
close_while_waiting_panics_example =
    close_while_waiting_panics http ring [] closing_moves false movie waiting_movie closed_movie 2
      (pos 1) (pos 3) refl refl refl refl
