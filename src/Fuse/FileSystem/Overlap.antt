-- ===== src/Fuse/FileSystem/Overlap.antt =====
-- `Close` of filesystem/server/provider/fuse/filesystem/main.go, with `Close` and `CloseNodes` of
-- registry/main.go, step by step, while the kernel still sends requests: `Close` takes no lock, and
-- the mount is only taken away behind it. A request and the `Close` of one node are one step each.
pub mod Due
pub mod Shut
pub mod Calm
pub mod Covered
pub mod Closed
pub mod Outlives
use Prim.Native.String.{String}
use fuse_video_streamer.Base.{ℕ, ◌≡◌, Bool, true, false, none, some, List, [], ◌∷◌, ◌++◌}
use fuse_video_streamer.Go.{returns}
use fuse_video_streamer.Stream.External.{Http, Ring}
use fuse_video_streamer.Fuse.Registry.{
  NodeRef, Instances, is_instance, nodes_of, without_nodes, names_of,
}
use fuse_video_streamer.Fuse.FileSystem.{FileSystem, Session, Runtime, close_node}
use fuse_video_streamer.Fuse.FileSystem.Reach.{Step}

-- Where the caller of `Close` stands: before the compare-and-swap, before `rootNodeService.Close()`, in
-- the loop over the registries with those to come, behind the loop over the nodes of a registry
-- and before `registry.nodes = nil`, at `wg.Wait()`, returned. The goroutines that have still to
-- close their node are listed by the node.
pub data ClosePc : Type 0 where
  swapping dropping : ClosePc
  ranging : List String → ClosePc
  emptying : String → List NodeRef → List String → ClosePc
  joining : List NodeRef → List String → ClosePc
  ended : ClosePc

pub record State (R W B : Type 0) : Type 0 where
  pub file_system : FileSystem
  pub session : Session R W B
  pub closer : ClosePc

module _ {R W B : Type 0} where
  abbrev pub with_instances : Session R W B → Instances → Session R W B
  with_instances s a = record s { tree = record s.tree { instances = a } }

module _ {R W B : Type 0} (http : Http W) (ring : Ring B) where
  -- Go visits the entries of a map in any order, and one that is stored meanwhile or not, as it
  -- likes. The goroutines of a registry run in any order, from the moment that they are started.
  pub data Action (s : State R W B) : State R W B → Type 0 where
    requests :
        (t : Session R W B) → Step http ring s.session t → Action s (record s { session = t })
    swaps :
        s.closer ≡ swapping
        → s.file_system.closed ≡ false
        → Action s
            (record s { file_system = record s.file_system { closed = true }; closer = dropping })
    finds_closed :
        s.closer ≡ swapping → s.file_system.closed ≡ true → Action s (record s { closer = ended })
    drops :
        (c : Bool)
        → s.closer ≡ dropping
        → s.file_system.service ≡ some c
        → Action s (record s {
          file_system = record s.file_system { service = none };
          closer = ranging (names_of s.session.tree.instances);
        })
    enters :
        (before after : List String) (name : String)
        → s.closer ≡ ranging (before ++ name ∷ after)
        → Action s (record s {
          closer = emptying name (nodes_of s.session.tree.instances name) (before ++ after);
        })
    enters_late :
        (name : String) (to_come : List String)
        → s.closer ≡ ranging to_come
        → is_instance s.session.tree.instances name ≡ true
        → Action s
            (record s { closer = emptying name (nodes_of s.session.tree.instances name) to_come })
    closes_early :
        (rt : Runtime) (name : String) (before after : List NodeRef) (n : NodeRef)
        (to_come : List String) (t : Session R W B)
        → s.closer ≡ emptying name (before ++ n ∷ after) to_come
        → close_node http ring rt n s.session ≡ returns t
        → Action s (record s { session = t; closer = emptying name (before ++ after) to_come })
    empties :
        (name : String) (nodes : List NodeRef) (to_come : List String)
        → s.closer ≡ emptying name nodes to_come
        → Action s (record s {
          session = with_instances s.session (without_nodes s.session.tree.instances name);
          closer = joining nodes to_come;
        })
    closes :
        (rt : Runtime) (before after : List NodeRef) (n : NodeRef) (to_come : List String)
        (t : Session R W B)
        → s.closer ≡ joining (before ++ n ∷ after) to_come
        → close_node http ring rt n s.session ≡ returns t
        → Action s (record s { session = t; closer = joining (before ++ after) to_come })
    joins :
        (to_come : List String)
        → s.closer ≡ joining [] to_come
        → Action s (record s { closer = ranging to_come })
    ends : s.closer ≡ ranging [] → Action s (record s { closer = ended })

  -- Any number of actions.
  pub data Actions (s : State R W B) : State R W B → Type 0 where
    stays : Actions s s
    acts : {t u : State R W B} → Actions s t → Action t u → Actions s u
