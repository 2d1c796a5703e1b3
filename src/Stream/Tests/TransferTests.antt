-- ===== src/Stream/Tests/TransferTests.antt =====
-- The theorems about the transfer, the connection and the sizes, at concrete inputs.
use fuse_video_streamer.Base.{
  ℕ, ◌+◌, ◌-◌, ◌≤◌, ◌≡◌, refl, true, false, none, some, List, [], ◌∷◌, ◌++◌, arith, length, drop,
}
use fuse_video_streamer.Base.Int.{pos}
use fuse_video_streamer.Stream.Size.{calculate_buffer_size, stream_start_position}
use fuse_video_streamer.Stream.Size.Bounds.{stream_start_position_bounds}
use fuse_video_streamer.Stream.Connection.{Connection, read}
use fuse_video_streamer.Stream.Connection.Laws.{fresh}
use fuse_video_streamer.Stream.Transfer.{
  Transfer, new_transfer, Move, starts, copies, closes, step, run, returned, ended, start_step,
  copy_step, close_step, crashed, halted,
}
use fuse_video_streamer.Stream.Transfer.Buffers.{
  begin_copy, end_copy, get, history, empty_pool, begins, second_copy_panics,
}
use fuse_video_streamer.Go.{panics, bad_type_assertion}
use fuse_video_streamer.Stream.Transfer.Threads.{Inv, run-Inv, new_transfer-Inv}
use fuse_video_streamer.Stream.Transfer.Aligned.{Aligned}
use fuse_video_streamer.Stream.Transfer.Alignment.{run-new_transfer-Aligned}
use fuse_video_streamer.Stream.Transfer.Ending.{canceled-IsOver}
use fuse_video_streamer.Stream.Transfer.Weights.{IsOver}
use fuse_video_streamer.Stream.Transfer.Closing.{Joined, close_returns, close_waits}
use fuse_video_streamer.Stream.Transfer.Filled.{copies_whole_file}
use fuse_video_streamer.Stream.Transfer.Races.{
  close_then_stop, close_then_end, close_while_reading_panics, close_leaves_stale_write,
}
use fuse_video_streamer.Stream.Tests.Setup.{
  file, http, unread, serves, answers, Buffer, ring, first_of_buffer, window_of, buffers,
}

-- A file of 300 MB, read from its hundred-millionth byte on.
stream_start_position_bounds_example :
    (start : ℕ) × (buffer : ℕ) × (stream_start_position (pos 300000000) (pos 100000000) ≡ pos start)
    × (calculate_buffer_size (pos 300000000) ≡ pos buffer)
    × (start ≤ 100000000)
    × ((100000000 - start) + (100000000 - start) ≤ buffer)
    × (buffer ≤ 300000000)
stream_start_position_bounds_example =
    stream_start_position_bounds 300000000 100000000 (omega arith)

abbrev from_two : Connection
from_two = fresh "url" (pos 2)

read_twice :
    let (first, c, w) = read http [] from_two 2 in
    let (second, c', w') = read http w c 2 in (first.0 ≡ 12 ∷ 13 ∷ []) × (second.0 ≡ 14 ∷ [])
unfolding read
read_twice = (refl, refl)

abbrev empty : Buffer
empty = record { first = 7; window = [] }

abbrev begun : Transfer (List ℕ) Buffer
begun = new_transfer [] (ring.reset_to_position empty (pos 2)) from_two

-- `start` spawns `copyData`, which copies what it reads until the end of the file.
abbrev whole : List Move
whole =
    starts true
    ∷ starts true
    ∷ copies
    ∷ copies
    ∷ copies
    ∷ copies
    ∷ copies
    ∷ copies
    ∷ starts true
    ∷ starts true
    ∷ starts true
    ∷ []

whole-window : (run http ring whole begun).buffer ≡ record { first = 2; window = 12 ∷ 13 ∷ 14 ∷ [] }
unfolding run step start_step copy_step new_transfer read
whole-window = refl

run-new_transfer-Aligned_example :
    Aligned file unread first_of_buffer window_of "url" 2 (run http ring whole begun)
run-new_transfer-Aligned_example =
    run-new_transfer-Aligned file unread first_of_buffer window_of "url" 2 http ring (serves "url")
      buffers whole [] empty from_two refl refl refl

begun-Inv : (ms : List Move) → Inv (run http ring ms begun)
begun-Inv ms = run-Inv http ring ms begun (new_transfer-Inv [] _ from_two)

-- `copyData` stands before its first read; then with three bytes to write.
abbrev before_read : List Move
before_read = starts true ∷ starts true ∷ copies ∷ []

abbrev in_hand : List Move
in_hand = starts true ∷ starts true ∷ copies ∷ copies ∷ []

close_while_reading_panics_example :
    (step http ring copies (run http ring close_then_stop (run http ring before_read begun))).copier
    ≡ crashed
unfolding run step start_step copy_step new_transfer read
close_while_reading_panics_example =
    close_while_reading_panics http ring (run http ring before_read begun) (begun-Inv before_read)
      refl refl refl

close_leaves_stale_write_example :
    let t' = run http ring close_then_end (run http ring in_hand begun) in
    let b = ring.reset_to_position t'.buffer (pos 0) in
    let t'' = step http ring copies (record t' { buffer = b }) in
    (t'.closer ≡ returned)
    × (t'.starter ≡ ended)
    × ((dropped : List ℕ) × (12 ∷ 13 ∷ 14 ∷ [] ≡ dropped ++ window_of t''.buffer)
        × (first_of_buffer t''.buffer ≡ 0 + length dropped))
unfolding run step start_step copy_step new_transfer read
close_leaves_stale_write_example =
    close_leaves_stale_write http ring first_of_buffer window_of buffers
      (run http ring in_hand begun) (12 ∷ 13 ∷ 14 ∷ []) none 0 (begun-Inv in_hand) refl refl refl
      refl

-- The same transfer once `Close` has come to its wait, while `copyData` holds three bytes.
abbrev at_wait : List Move
at_wait = starts true ∷ starts true ∷ copies ∷ copies ∷ closes ∷ closes ∷ closes ∷ []

abbrev mixed : List Move
mixed = copies ∷ starts true ∷ copies ∷ starts true ∷ copies ∷ starts false ∷ copies ∷ []

canceled-IsOver_example : IsOver (run http ring mixed (run http ring at_wait begun)).copier
unfolding run step start_step copy_step close_step new_transfer read
canceled-IsOver_example =
    canceled-IsOver http ring mixed (run http ring at_wait begun) (begun-Inv at_wait) refl refl
      (omega arith)

abbrev six : List Move
six =
    starts true ∷ starts true ∷ closes ∷ starts true ∷ starts true ∷ starts true ∷ starts true ∷ []

close_returns_example :
    ((run http ring six (run http ring at_wait begun)).starter ≡ ended)
    × ((step http ring closes (run http ring six (run http ring at_wait begun))).closer ≡ returned)
unfolding run step start_step copy_step close_step new_transfer read
close_returns_example =
    close_returns http ring six (run http ring at_wait begun) (begun-Inv at_wait) refl (omega arith)

close_waits_example :
    Joined
      (run http ring mixed (run http ring at_wait begun)).closer
      (run http ring mixed (run http ring at_wait begun)).starter
unfolding run step start_step copy_step close_step new_transfer read
close_waits_example =
    close_waits http ring mixed (run http ring at_wait begun) (begun-Inv at_wait) tt

-- Thirteen steps of copyData, with the goroutine `start` in between.
abbrev thirteen : List Move
thirteen =
    copies
    ∷ copies
    ∷ copies
    ∷ starts true
    ∷ copies
    ∷ copies
    ∷ copies
    ∷ starts false
    ∷ copies
    ∷ copies
    ∷ copies
    ∷ copies
    ∷ starts true
    ∷ copies
    ∷ copies
    ∷ copies
    ∷ []

copies_whole_file_example :
    let t = run http ring (starts true ∷ starts true ∷ thirteen) begun in
    (t.copier ≡ halted) × (drop t.buffer.first file ≡ t.buffer.window)
copies_whole_file_example =
    copies_whole_file file unread first_of_buffer window_of "url" 2 http ring (serves "url") answers
      buffers (λ b bytes. refl) [] empty true true thirteen tt (omega arith)

-- A copyData ends; the next one that runs gets its item.
second_copy_panics_example :
    (begin_copy (some 0) (end_copy 0 (record { items = []; next = 1 }))).0
    ≡ panics bad_type_assertion
unfolding history begin_copy get end_copy empty_pool
second_copy_panics_example =
    second_copy_panics (begins none ∷ []) (record { items = []; next = 1 }) 0 0 refl (omega arith)
