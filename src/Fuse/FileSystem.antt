-- ===== src/Fuse/FileSystem.antt =====
-- filesystem/server/provider/fuse: filesystem/main.go, filesystem/root/node/service/main.go, and the
-- closing of the nodes in registry/main.go. The goroutines of `CloseNodes` run one after the other, in
-- an order that the runtime chooses.
pub mod Follows
pub mod Nodes
pub mod Closing
pub mod Good
pub mod Advances
pub mod Reach
pub mod Reached
pub mod Overlap
use fuse_video_streamer.Base.{
  ℕ, Bool, true, false, Option, none, some, List, [], ◌∷◌, get_elem?, set, if◌then◌else◌,
}
use Prim.Native.String.{String}
use fuse_video_streamer.Go.{
  Outcome, ok, err, panics, nil_dereference, and_then, Ended, returns, waits, crashes, when_returns,
}
use fuse_video_streamer.Config.{Config}
use fuse_video_streamer.Client.Grpc.{Api}
use fuse_video_streamer.Client.Repository.{ClientRepository, new_repository}
use fuse_video_streamer.Stream.External.{Http, Ring}
use fuse_video_streamer.Stream.Transfer.{Move}
use fuse_video_streamer.Fuse.Registry.{NodeRef, directory, streamable, file, Instances, emptied}
use fuse_video_streamer.Fuse.Streamable.Handle.{World}
use fuse_video_streamer.Fuse.Streamable.Node as Streamable
use fuse_video_streamer.Fuse.File.Node as File
use fuse_video_streamer.Fuse.Directory.{Tree}
use fuse_video_streamer.Fuse.Directory.Requests
use fuse_video_streamer.Fuse.Root.{Root}

-- The nodes, the streams and buffers that the streamable ones use, and the root nodes that `Root()` made.
pub record Session (R W B : Type 0) : Type 0 where
  pub tree : Tree R
  pub world : World W B
  pub roots : List (Root R)

-- The order in which the goroutines of these nodes run, the order in which a map is gone through, and
-- the schedule for the stream of a handle, by the indexes of its node and of itself.
pub record Runtime : Type 0 where
  pub goroutines : List NodeRef → List NodeRef
  pub entries : Instances → Instances
  pub moves : ℕ → ℕ → List Move

-- The struct. `service` is whether the root node service was closed, or none where it is nil.
pub record FileSystem : Type 0 where
  pub service : Option Bool
  pub closed : Bool

unfoldable pub new_file_system : FileSystem
new_file_system = record { service = some false; closed = false }

module _ {R : Type 0} (dial : String → Outcome (Api R)) where
  -- `New` of the root node, with the clients of the configuration.
  unfoldable pub new_root : Outcome Config → Outcome (Root R)
  new_root config = and_then (new_repository dial config) (λ (cs : ClientRepository R).
      ok (record { clients = cs; has_service = true; closed = false }))

  -- `rootNodeService.New()`: once closed it returns a nil root node and no error.
  abbrev pub root_by : Outcome Config → Option Bool → Outcome (Option (Root R))
  root_by config none = panics nil_dereference
  root_by config (some true) = ok none
  root_by config (some false) = and_then (new_root config) (λ (root : Root R). ok (some root))

  -- `Root()`
  unfoldable pub root : Outcome Config → FileSystem → Outcome (Option (Root R))
  root config fs = root_by config fs.service

module _ {R W B : Type 0} (http : Http W) (ring : Ring B) where
  abbrev pub after_file : ℕ → Session R W B → Outcome File.Node → Ended (Session R W B)
  after_file i s (ok n) =
      returns (record s { tree = record s.tree { files = set s.tree.files i n } })
  after_file i s (err e) = returns s
  after_file i s (panics p) = crashes p

  abbrev pub after_streamable :
      ℕ → Session R W B → Ended (Streamable.Node × World W B) → Ended (Session R W B)
  after_streamable i s waits = waits
  after_streamable i s (crashes p) = crashes p
  after_streamable i s (returns (n, w)) =
      returns
        (record s { tree = record s.tree { streamables = set s.tree.streamables i n }; world = w })

  -- `node.Close()`, whose error is dropped, on the node that the reference stands for.
  unfoldable pub close_node : Runtime → NodeRef → Session R W B → Ended (Session R W B)
  close_node rt (directory i) s = elim (get_elem? s.tree.directories i) [
    | none ↦ returns s
    | some d ↦ returns (record s {
      tree = record s.tree { directories = set s.tree.directories i (Requests.close d) };
    })
  ]
  close_node rt (file i) s = elim (get_elem? s.tree.files i) [
    | none ↦ returns s
    | some n ↦ after_file i s (File.close n)
  ]
  close_node rt (streamable i) s = elim (get_elem? s.tree.streamables i) [
    | none ↦ returns s
    | some n ↦ after_streamable i s (Streamable.close http ring (rt.moves i) s.world n)
  ]

  unfoldable pub close_all : Runtime → List NodeRef → Session R W B → Ended (Session R W B)
  close_all rt [] s = returns s
  close_all rt (n ∷ ns) s = when_returns (close_node rt n s) (close_all rt ns)

  -- `registry.CloseNodes()` on each of the registries, each of which is left without nodes.
  unfoldable pub close_registries : Runtime → Instances → Session R W B → Ended (Session R W B)
  close_registries rt [] s = returns s
  close_registries rt ((name, nodes) ∷ rest) s =
      when_returns (close_all rt (rt.goroutines nodes) s) (close_registries rt rest)

  abbrev pub without_nodes : Session R W B → Session R W B
  without_nodes s = record s { tree = record s.tree { instances = emptied s.tree.instances } }

  -- `registry.Close()`
  unfoldable pub close_instances : Runtime → Session R W B → Ended (Session R W B)
  close_instances rt s =
      when_returns (close_registries rt (rt.entries s.tree.instances) s)
        (λ s'. returns (without_nodes s'))

  -- `Close()` behind the compare-and-swap: the root node service is closed and its pointer dropped.
  abbrev pub close_by : Runtime → Session R W B → Option Bool → Ended (FileSystem × Session R W B)
  close_by rt s none = crashes nil_dereference
  close_by rt s (some c) =
      when_returns (close_instances rt s)
        (λ s'. returns (record { service = none; closed = true }, s'))

  -- `Close()`, which always returns nil, and which is all that `Destroy()` does.
  unfoldable pub close : Runtime → FileSystem → Session R W B → Ended (FileSystem × Session R W B)
  close rt fs s = if fs.closed then returns (fs, s) else close_by rt s fs.service
