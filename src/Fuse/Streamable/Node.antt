-- ===== src/Fuse/Streamable/Node.antt =====
-- filesystem/server/provider/fuse/filesystem/streamable: node/main.go, and handle/service/main.go,
-- which makes the handles through the stream factory of the node. A node's handles are known by their
-- index. `Close` takes no lock: an `Open` that has passed a test and a `Close` may overlap, so `Open`
-- is in parts. The loggers are always made.
pub mod Closing
pub mod Opening
pub mod Holding
pub mod Racing
pub mod Serving
use Prim.Native.String.{String}
use fuse_video_streamer.Base.{
  ℕ, Bool, true, false, Option, none, some, List, [], ◌∷◌, ◌++◌, length, get_elem?, set,
  if◌then◌else◌,
}
use fuse_video_streamer.Go.{
  enoent, Outcome, ok, err, panics, nil_dereference, Ended, returns, waits, crashes,
}
use fuse_video_streamer.Client.{Client}
use fuse_video_streamer.Stream.External.{Http, Ring}
use fuse_video_streamer.Stream.Transfer.{Move}
use fuse_video_streamer.Stream.Core.{Stream}
use fuse_video_streamer.Stream.Factory.{Factory, new_factory, new_stream}
use fuse_video_streamer.Fuse.Streamable.Handle.{Handle, World, new_handle}
use fuse_video_streamer.Fuse.Streamable.Handle

-- The handle service. The pointer to the stream factory is nil once the service is closed.
pub record Service : Type 0 where
  pub stream_factory : Option Factory
  pub closed : Bool

-- `New` of the service.
unfoldable pub new_service : Factory → Service
new_service f = record { stream_factory = some f; closed = false }

-- `New` of the factory of the services.
unfoldable pub make_service : Service
unfolding new_service new_factory
make_service = new_service new_factory

-- `Close` of the service. Nothing points to the factory that it closes afterwards.
unfoldable pub close_service : Service → Ended Service
close_service s = if s.closed then returns s else elim s.stream_factory [
  | none ↦ crashes nil_dereference
  | some f ↦ returns (record { stream_factory = none; closed = true })
]

-- The struct. `objects` are all handles that were made, `handles` the indexes of those that the field
-- `handles` holds, `none` for a nil one.
pub record Node : Type 0 where
  pub identifier : ℕ
  pub size : ℕ
  pub service : Service
  pub handles : List (Option ℕ)
  pub objects : List Handle
  pub closed : Bool

unfoldable pub new_node : ℕ → ℕ → Node
unfolding make_service
new_node identifier size = record {
  identifier = identifier;
  size = size;
  service = make_service;
  handles = [];
  objects = [];
  closed = false;
}

-- The mode and the size.
unfoldable pub attr : Node → Outcome (ℕ × ℕ)
attr n = if n.closed then err enoent else ok (0, n.size)

-- What an `Open` meets: the network, the identifier that `stream.New` prints from the clock, and the
-- two readings of the clock in the stream factory.
pub record Moment (W : Type 0) : Type 0 where
  pub network : W
  pub id : String
  pub now : ℕ
  pub later : ℕ

abbrev pub with_factory : Node → Factory → Node
with_factory n f = record n {
  service = record { stream_factory = some f; closed = n.service.closed };
}

module _ {W B R : Type 0} (http : Http W) (ring : Ring B) (client : Client R) where
  -- What follows `NewStream`: the handle on the new stream is made and appended.
  abbrev pub keep_handle :
      World W B → Node → Outcome (Stream W B) × Factory → Outcome (Option ℕ) × Node × World W B
  keep_handle w n (err e, f) = (err e, with_factory n f, w)
  keep_handle w n (panics p, f) = (panics p, with_factory n f, w)
  keep_handle w n (ok s, f) =
      let (h, w') =
        new_handle (record w { streams = w.streams ++ s ∷ [] }) n.size (some (length w.streams)) in
      let i = length n.objects in
      (
        ok (some i),
        record (with_factory n f) {
          handles = n.handles ++ some i ∷ [];
          objects = n.objects ++ h ∷ [];
        },
        w',
      )

  -- `Open` behind the test of the service.
  unfoldable pub open_stream :
      Moment W → R → World W B → Node → Option Factory → (Outcome (Option ℕ) × Node × World W B) × R
  open_stream m r w n none = ((panics nil_dereference, n, w), r)
  open_stream m r w n (some f) =
      let (made, r') =
        new_stream client http ring m.id m.network m.now m.later r f n.identifier n.size in
      (keep_handle w n made, r')

  -- `Open` behind its test. The service, once closed, returns a nil handle and no error.
  unfoldable pub open_handle :
      Moment W → R → World W B → Node → (Outcome (Option ℕ) × Node × World W B) × R
  open_handle m r w n =
      if n.service.closed
      then ((ok none, record n { handles = n.handles ++ none ∷ [] }, w), r)
      else open_stream m r w n n.service.stream_factory

  -- `Open` with no `Close` in between.
  unfoldable pub open_node :
      Moment W → R → World W B → Node → (Outcome (Option ℕ) × Node × World W B) × R
  open_node m r w n = if n.closed then ((err enoent, n, w), r) else open_handle m r w n

module _ {W B : Type 0} (http : Http W) (ring : Ring B) where
  -- The rest of the loop behind a `handle.Close()`.
  abbrev pub after_handle :
      List Handle
      → ℕ
      → Option (Handle × World W B)
      → (List Handle → World W B → Ended (List Handle × World W B))
      → Ended (List Handle × World W B)
  after_handle objects i none rest = waits
  after_handle objects i (some (h, w)) rest = rest (set objects i h) w

  -- `handle.Close()` on each of the handles, the `i`th under the schedule `ms i`; a nil one panics.
  unfoldable pub close_handles :
      (ℕ → List Move) → List (Option ℕ) → List Handle → World W B → Ended (List Handle × World W B)
  close_handles ms [] objects w = returns (objects, w)
  close_handles ms (none ∷ is) objects w = crashes nil_dereference
  close_handles ms (some i ∷ is) objects w = elim (get_elem? objects i) [
    | none ↦ close_handles ms is objects w
    | some h ↦ after_handle objects i (Handle.close http ring (ms i) w h) (close_handles ms is)
  ]

  abbrev pub closed_node : Node → Ended (List Handle × World W B) → Ended (Node × World W B)
  closed_node n (returns (objects, w)) = returns (record n { objects = objects }, w)
  closed_node n waits = waits
  closed_node n (crashes p) = crashes p

  -- `Close` behind the compare-and-swap.
  abbrev pub close_by :
      (ℕ → List Move) → World W B → Node → Ended Service → Ended (Node × World W B)
  close_by ms w n waits = waits
  close_by ms w n (crashes p) = crashes p
  close_by ms w n (returns s) =
      closed_node (record n { service = s; closed = true }) (close_handles ms n.handles n.objects w)

  -- `Close`, which always returns nil.
  unfoldable pub close : (ℕ → List Move) → World W B → Node → Ended (Node × World W B)
  close ms w n = if n.closed then returns (n, w) else close_by ms w n (close_service n.service)
