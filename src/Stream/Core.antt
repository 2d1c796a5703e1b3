-- ===== src/Stream/Core.antt =====
-- stream/main.go: the type Stream. A stream's mutex is held for the whole of `ReadAt` and not by
-- `Close`, so what can happen inside a `ReadAt` that waits is a list of events: moves of the
-- transfer's threads, of threads that earlier transfers left behind, and a call of `Close`.
pub mod Starting
pub mod Placed
pub mod Reading
pub mod Closing
use mathlib.Core.Option
use Prim.Native.String.{String}
use fuse_video_streamer.Base.{
  ℕ, Bool, true, false, not, ◌&&◌, Option, none, some, List, [], ◌∷◌, if◌then◌else◌, length,
  get_elem?, set,
}
use fuse_video_streamer.Base.Int.{ℤ, pos, ◌+ℤ◌, min_ℤ}
use fuse_video_streamer.Go.{
  GoError, failure, wrapped, Error, Outcome, ok, err, panics, nil_dereference, stream_is_closed,
  buffer_is_closed, timeout_waiting, error_closing_buffer,
}
use fuse_video_streamer.Stream.Size.{calculate_buffer_size, stream_start_position}
use fuse_video_streamer.Stream.External.{Http, Ring}
use fuse_video_streamer.Stream.Connection.{Connection, new_connection}
use fuse_video_streamer.Stream.Transfer.{Transfer, ClosePc, returned, Move, run, step}
use fuse_video_streamer.Stream.Transfer

-- The fields of the struct, with the network, and the ring buffer that `buffer` points to as long as
-- it is not nil. `former` are the transfers that were closed, whose goroutines may still run.
pub record Stream (W B : Type 0) : Type 0 where
  pub id : String
  pub url : String
  pub size : ℤ
  pub network : W
  pub ring : B
  pub has_buffer : Bool
  pub canceled : Bool
  pub transfer : Option (Transfer W B)
  pub former : List (Transfer W B)
  pub closed : Bool

abbrev pub ends : ClosePc → Bool
ends returned = true
ends _ = false

-- A transfer's threads work on the stream's ring buffer and network.
abbrev pub attach : {W B : Type 0} → Stream W B → Transfer W B → Transfer W B
attach s t = record t { network = s.network; buffer = s.ring }

abbrev pub settle : {W B : Type 0} → Stream W B → Transfer W B → Stream W B
settle s t = record s { network = t.network; ring = t.buffer }

module _ {W B : Type 0} (http : Http W) (ring : Ring B) where
  -- `New(url, size)`. The identifier is the time, printed.
  unfoldable pub new : String → W → String → ℤ → Stream W B
  unfolding calculate_buffer_size
  new now network url size = record {
    id = now;
    url = url;
    size = size;
    network = network;
    ring = ring.new_ring (calculate_buffer_size size) (pos 0);
    has_buffer = true;
    canceled = false;
    transfer = none;
    former = [];
    closed = false;
  }

  -- `transfer.Close()` under a schedule of the threads. It does not return under one that is too
  -- short for it.
  unfoldable pub close_former : List Move → Stream W B → Option (Transfer W B) → Option (Stream W B)
  close_former ms s none = some s
  close_former ms s (some t) =
      let t' = run http ring ms (attach s t) in
      if ends t'.closer
      then some (record (settle s t') { transfer = none; former = t' ∷ s.former })
      else none

  -- From `NewConnection` on.
  unfoldable pub start_transfer :
      Stream W B → ℤ → Outcome Connection → Outcome (Unit {0}) × Stream W B
  start_transfer s start (err e) = (err e, s)
  start_transfer s start (panics p) = (panics p, s)
  start_transfer s start (ok c) =
      let b = ring.reset_to_position s.ring start in
      (ok tt, record s { ring = b; transfer = some (Transfer.new_transfer s.network b c) })

  -- `stream.newTransfer(startPosition)`; `none` while the `Close` in it has not returned.
  unfoldable pub new_transfer :
      List Move → Stream W B → ℤ → Option (Outcome (Unit {0}) × Stream W B)
  unfolding close_former start_transfer
  new_transfer ms s start_position =
      if s.closed
      then some (err (failure stream_is_closed), s)
      else if not s.has_buffer
      then some (err (failure buffer_is_closed), s)
      else elim (close_former ms s s.transfer) [
        | none ↦ none
        | some s' ↦
            let start = stream_start_position s.size start_position in
            some (start_transfer s' start (new_connection s.url start))
      ]

  -- The error of `transfer.Close()` is only printed.
  unfoldable pub close_transfer : Option (Stream W B) → Option (Error × Stream W B)
  close_transfer none = none
  close_transfer (some s) = some (none, s)

  -- `stream.Close()` under a schedule for the `Close` of the transfer.
  unfoldable pub close : List Move → Stream W B → Option (Error × Stream W B)
  unfolding close_former close_transfer
  close ms s =
      if s.closed
      then some (none, s)
      else let s' = record s { closed = true; canceled = true } in
        let end = λ (u : Stream W B). close_transfer (close_former ms u u.transfer) in
        if s.has_buffer
        then (let (e, b) = ring.close_ring s.ring in
            elim e [
              | some x ↦ some (some (wrapped error_closing_buffer x), record s' { ring = b })
              | none ↦ end (record s' { ring = b; has_buffer = false })
            ])
        else end s'

-- How far a call of `ReadAt` has come: it returned the bytes and the error, it waits for a
-- position, or it panicked.
pub data Progress : Type 0 where
  gives : List ℕ → Error → Progress
  awaits : ℤ → Progress
  panicked : Progress

pub data Event : Type 0 where
  -- A thread of the transfer, or of the closed transfer with this index, makes its next move.
  moves : Move → Event
  strays : ℕ → Move → Event
  -- Another goroutine calls `Close`, which runs under this schedule.
  closes : List Move → Event

module _ {W B : Type 0} (http : Http W) (ring : Ring B) where
  -- `return stream.buffer.ReadAt(p, seekPosition)`
  unfoldable pub read_buffer : Stream W B → ℕ → ℤ → Progress
  read_buffer s n seek =
      if s.has_buffer
      then (let (bytes, e) = ring.read_at s.ring n seek in gives bytes e)
      else panicked

  -- From `requestedPosition` on.
  unfoldable pub request : Stream W B → ℕ → ℤ → Progress
  request s n seek =
      let requested = min_ℤ (seek +ℤ pos n) s.size in
      if ring.is_position_available s.ring requested then read_buffer s n seek else awaits requested

  -- `ReadAt` of `n` bytes, up to its wait. `ms` is the schedule of the `Close` in `newTransfer`.
  unfoldable pub read_at_begin : List Move → Stream W B → ℕ → ℤ → Option (Progress × Stream W B)
  read_at_begin ms s n seek =
      if s.closed
      then some (gives [] (some (failure stream_is_closed)), s)
      else if not s.has_buffer
      then some (gives [] (some (failure buffer_is_closed)), s)
      else if ring.is_position_available s.ring seek
      then some (request s n seek, s)
      else elim (new_transfer http ring ms s seek) [
        | none ↦ none
        | some (ok u, s') ↦ some (request s' n seek, s')
        | some (err e, s') ↦ some (gives [] (some e), s')
        | some (panics p, s') ↦ some (panicked, s')
      ]

  -- A call of `Close` that does not return under its schedule leaves nothing to go on from.
  unfoldable pub occur : Event → Stream W B → Option (Stream W B)
  occur (moves m) s = elim s.transfer [
    | none ↦ some s
    | some t ↦
        let t' = step http ring m (attach s t) in some (record (settle s t') { transfer = some t' })
  ]
  occur (strays i m) s = elim (get_elem? s.former i) [
    | none ↦ some s
    | some t ↦
        let t' = step http ring m (attach s t) in
        some (record (settle s t') { former = set s.former i t' })
  ]
  occur (closes ms) s = Option.map (λ (r : Error × Stream W B). r.1) (close http ring ms s)

  unfoldable pub occurs : List Event → Stream W B → Option (Stream W B)
  occurs [] s = some s
  occurs (e ∷ es) s = elim (occur e s) [ none ↦ none | some s' ↦ occurs es s' ]

  -- The rest of a `ReadAt` that waited. `waited` is what `WaitForPosition` returned.
  unfoldable pub read_at_end : Bool → Stream W B → ℕ → ℤ → Progress
  read_at_end waited s n seek =
      if not waited && not s.closed
      then gives [] (some (failure timeout_waiting))
      else read_buffer s n seek

  -- The whole of `ReadAt`, if the calls in it return under the schedule and the events.
  unfoldable pub read_at :
      List Move → List Event → Bool → Stream W B → ℕ → ℤ → Option (Progress × Stream W B)
  read_at ms es waited s n seek = elim (read_at_begin ms s n seek) [
    | none ↦ none
    | some (gives bytes e, s') ↦ some (gives bytes e, s')
    | some (panicked, s') ↦ some (panicked, s')
    | some (awaits requested, s') ↦ elim (occurs es s') [
      | none ↦ none
      | some s'' ↦ some (read_at_end waited s'' n seek, s'')
    ]
  ]
