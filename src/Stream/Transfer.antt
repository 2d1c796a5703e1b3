-- ===== src/Stream/Transfer.antt =====
-- stream/transfer/main.go: the transfer of a connection's bytes into the ring buffer, as three
-- threads over the shared `Transfer`: the goroutine `start`, the goroutine `copyData` that it
-- spawns, and a caller of `Close`. A move lets one thread make its next step, which is one action
-- on shared data; a thread that has to wait, or has ended, makes no step. A schedule is a list of
-- moves, so an interleaving is a value.
pub mod Threads
pub mod Aligned
pub mod Copying
pub mod Alignment
pub mod Weights
pub mod Ending
pub mod Closing
pub mod Races
pub mod Filling
pub mod Filled
pub mod Buffers
use fuse_video_streamer.Base.{
  ℕ, ◌+◌, ◌-◌, ◌*◌, Bool, true, false, Option, none, some, List, [], ◌∷◌, ◌==◌, if◌then◌else◌,
}
use fuse_video_streamer.Go.{GoError, Error, eof, context_canceled}
use fuse_video_streamer.Stream.External.{Http, Ring}
use fuse_video_streamer.Stream.Connection.{Connection, ReadResult}
use fuse_video_streamer.Stream.Connection

-- Where `start` stands: before `wg.Add(1)`, before `go copyData`, at the `select`, in the case of
-- `context.Done()`, before the EOF marker is written, before the deferred `wg.Done()`, at its end.
pub data StartPc : Type 0 where
  adding spawning selecting stopping marking finishing ended : StartPc

-- Where `copyData` stands: not spawned, at the test of the context, before `connection.Read`,
-- before `buffer.Write` with the bytes and the error of the read, before `done <-`, returned, or
-- stopped by a panic.
pub data CopyPc : Type 0 where
  unborn checking reading : CopyPc
  writing : List ℕ → Error → CopyPc
  sending : Error → CopyPc
  halted crashed : CopyPc

-- Where a caller of `Close` stands: before the call, before the two statements that follow the
-- compare-and-swap, at `wg.Wait()`, returned.
pub data ClosePc : Type 0 where
  swapping closing canceling waiting returned : ClosePc

-- The fields of the struct, the channel `done`, the network and the buffer, and the three threads.
-- `wg` is the counter of the wait group.
pub record Transfer (W B : Type 0) : Type 0 where
  pub network : W
  pub buffer : B
  pub connection : Option Connection
  pub canceled : Bool
  pub closed : Bool
  pub wg : ℕ
  pub done : List Error
  pub starter : StartPc
  pub copier : CopyPc
  pub closer : ClosePc

-- The transfer that `NewTransfer` returns, with `go transfer.start()` on its way.
unfoldable pub new_transfer : {W B : Type 0} → W → B → Connection → Transfer W B
new_transfer network buffer connection = record {
  network = network;
  buffer = buffer;
  connection = some connection;
  canceled = false;
  closed = false;
  wg = 0;
  done = [];
  starter = adding;
  copier = unborn;
  closer = swapping;
}

-- The end of an iteration of `copyData`.
abbrev pub after_read : Error → CopyPc
after_read none = checking
after_read (some eof) = sending none
after_read (some e) = sending (some e)

-- What follows a read: `if bytesRead > 0 { … }`.
abbrev pub after_bytes : ReadResult → CopyPc
after_bytes ([], e) = after_read e
after_bytes (x ∷ xs, e) = writing (x ∷ xs) e

module _ {W B : Type 0} (http : Http W) (ring : Ring B) where
  -- The `select` of `start`. Where both cases are ready Go takes either: `choice` says which.
  select_step : Bool → Transfer W B → Bool → List Error → Transfer W B
  select_step choice t false [] = t
  select_step choice t true [] = record t { starter = stopping }
  select_step choice t false (e ∷ rest) = record t { done = rest; starter = marking }
  select_step choice t true (e ∷ rest) =
      if choice
      then record t { starter = stopping }
      else record t { done = rest; starter = marking }

  -- `if transfer.connection != nil { transfer.connection.Close(); transfer.connection = nil }`
  stop_connection : Transfer W B → Option Connection → Transfer W B
  stop_connection t none = record t { starter = marking }
  stop_connection t (some c) =
      let (e, c', w) = Connection.close http t.network c in
      record t { network = w; connection = none; starter = marking }

  unfoldable pub start_step : Bool → Transfer W B → StartPc → Transfer W B
  unfolding select_step stop_connection
  start_step choice t adding = record t { wg = t.wg + 1; starter = spawning }
  start_step choice t spawning = record t { copier = checking; starter = selecting }
  start_step choice t selecting = select_step choice t t.canceled t.done
  start_step choice t stopping = stop_connection t t.connection
  start_step choice t marking = record t {
    buffer = ring.write_eof_marker t.buffer;
    starter = finishing;
  }
  start_step choice t finishing = record t { wg = t.wg - 1; starter = ended }
  start_step choice t ended = t

  -- `transfer.connection.Read(buf)`, with 64 KiB of room. A nil connection panics.
  read_step : Transfer W B → Option Connection → Transfer W B
  read_step t none = record t { copier = crashed }
  read_step t (some c) =
      let (result, c', w) = Connection.read http t.network c (64 * 1024) in
      record t { network = w; connection = some c'; copier = after_bytes result }

  write_step : Transfer W B → List ℕ → Error → Transfer W B
  write_step t bytes read_err =
      let (write_err, b) = ring.write t.buffer bytes in
      record t {
        buffer = b;
        copier = elim write_err [ some e ↦ sending (some e) | none ↦ after_read read_err ];
      }

  -- `done <-` waits while the channel, of capacity one, is full.
  send_step : Transfer W B → Error → List Error → Transfer W B
  send_step t e [] = record t { done = e ∷ []; copier = halted }
  send_step t e (x ∷ full) = t

  unfoldable pub copy_step : Transfer W B → CopyPc → Transfer W B
  unfolding read_step write_step send_step
  copy_step t unborn = t
  copy_step t checking =
      if t.canceled
      then record t { copier = sending (some context_canceled) }
      else record t { copier = reading }
  copy_step t reading = read_step t t.connection
  copy_step t (writing bytes e) = write_step t bytes e
  copy_step t (sending e) = send_step t e t.done
  copy_step t halted = t
  copy_step t crashed = t

  -- `if transfer.connection != nil { err := transfer.connection.Close() … }`
  close_connection : Transfer W B → Option Connection → Transfer W B
  close_connection t none = record t { closer = canceling }
  close_connection t (some c) =
      let (e, c', w) = Connection.close http t.network c in
      record t { network = w; connection = some c'; closer = canceling }

  unfoldable pub close_step : Transfer W B → ClosePc → Transfer W B
  unfolding close_connection
  close_step t swapping =
      if t.closed
      then record t { closer = returned }
      else record t { closed = true; closer = closing }
  close_step t closing = close_connection t t.connection
  close_step t canceling = record t { canceled = true; closer = waiting }
  close_step t waiting = if t.wg == 0 then record t { closer = returned } else t
  close_step t returned = t

-- `starts` carries the choice of the `select`.
pub data Move : Type 0 where
  starts : Bool → Move
  copies closes : Move

module _ {W B : Type 0} (http : Http W) (ring : Ring B) where
  unfoldable pub step : Move → Transfer W B → Transfer W B
  unfolding start_step copy_step close_step
  step (starts choice) t = start_step http ring choice t t.starter
  step copies t = copy_step http ring t t.copier
  step closes t = close_step http ring t t.closer

  unfoldable pub run : List Move → Transfer W B → Transfer W B
  run [] t = t
  run (m ∷ ms) t = run ms (step m t)
