-- ===== src/Fuse/FileSystem/Overlap/Closed.antt =====
-- What `Close` of filesystem/server/provider/fuse/filesystem/main.go does, and does not, reach while requests
-- go on.
use fuse_video_streamer.Base.{◌≡◌, false, get_elem?-below}
use fuse_video_streamer.Go.{Ended, returns, waits, crashes}
use fuse_video_streamer.Stream.External.{Http, Ring}
use fuse_video_streamer.Fuse.Registry.{NodeRef, directory, streamable, file}
use fuse_video_streamer.Fuse.Directory.Registered.{Registered}
use fuse_video_streamer.Fuse.Directory.Served.{IsKept}
use fuse_video_streamer.Fuse.FileSystem.{FileSystem, Session, Runtime, close_node}
use fuse_video_streamer.Fuse.FileSystem.Follows.{IsSound}
use fuse_video_streamer.Fuse.FileSystem.Nodes.{Closes, Only, close_node-Closes}
use fuse_video_streamer.Fuse.FileSystem.Reach.{Reach}
use fuse_video_streamer.Fuse.FileSystem.Reached.{Reach-IsGood}
use fuse_video_streamer.Fuse.FileSystem.Overlap.Shut.{IsThere, IsShut}
use fuse_video_streamer.Fuse.FileSystem.Overlap.Calm.{Calm, actions-Calm}
use fuse_video_streamer.Fuse.FileSystem.Overlap.Covered.{actions-Inv, at_pc}
use fuse_video_streamer.Fuse.FileSystem.Overlap.{State, swapping, ended, Actions}

IsThere-Registered :
    {R W B : Type 0} (n : NodeRef) (s : Session R W B)
    → IsKept s.tree
    → IsThere n s
    → Registered n s.tree.instances
IsThere-Registered (directory i) s k (d, e) =
    k.directories i (get_elem?-below s.tree.directories i d e)
IsThere-Registered (streamable i) s k (n, e) =
    k.streamables i (get_elem?-below s.tree.streamables i n e)
IsThere-Registered (file i) s k (n, e) = k.files i (get_elem?-below s.tree.files i n e)

module _ {R W B : Type 0} (http : Http W) (ring : Ring B) where
  -- A caller of `Close` is about to begin.
  abbrev pub about_to_close : FileSystem → Session R W B → State R W B
  about_to_close fs s = record { file_system = fs; session = s; closer = swapping }

  begins-Calm :
      (fs : FileSystem) (s : Session R W B) → Reach http ring s → Calm (about_to_close fs s)
  begins-Calm fs s reached =
      let (k, w) = Reach-IsGood http ring reached in record { sound = w; served = k.served }

  -- A node that is there when a Close of an open file system begins, in a session that requests
  -- reach, is closed when that Close returns, and the session is then still sound, so that all
  -- handles of the node, which may be a directory too, and the streams of its handles are closed:
  -- however the loop over the registries, the loops over their nodes and the goroutines that close
  -- the nodes go with one another, and whatever requests come in between, from their making of
  -- nodes to their opening of handles.
  pub overlapped-IsShut :
      (fs : FileSystem) (s : Session R W B) (t : State R W B) (n : NodeRef)
      → Reach http ring s
      → fs.closed ≡ false
      → IsThere n s
      → Actions http ring (about_to_close fs s) t
      → t.closer ≡ ended
      → IsShut n t.session × IsSound t.session
  overlapped-IsShut fs s t n reached running there run over =
      let calm = begins-Calm fs s reached in
      let (k, w) = Reach-IsGood http ring reached in
      let v =
        actions-Inv http ring n calm
          (record { there = there; covered = (running, IsThere-Registered n s k there) }) run in
      (at_pc http ring n t ended v over, (actions-Calm http ring calm run).sound)

  abbrev pub NoCrash : Ended (Session R W B) → Type 0
  NoCrash (crashes p) = ⊥
  NoCrash _ = Unit {0}

  Closes-NoCrash :
      (P : NodeRef → Type 0) (s : Session R W B) (r : Ended (Session R W B))
      → Closes P s r
      → NoCrash r
  Closes-NoCrash P s waits c = tt
  Closes-NoCrash P s (crashes p) c = c
  Closes-NoCrash P s (returns t) c = tt

  -- None of the goroutines panics, whatever requests come in between.
  pub overlapped-NoCrash :
      (fs : FileSystem) (s : Session R W B) (t : State R W B) (rt : Runtime) (n : NodeRef)
      → Reach http ring s
      → Actions http ring (about_to_close fs s) t
      → NoCrash (close_node http ring rt n t.session)
  overlapped-NoCrash fs s t rt n reached run =
      Closes-NoCrash (Only n) t.session (close_node http ring rt n t.session) (
        close_node-Closes http ring rt n t.session
          (actions-Calm http ring (begins-Calm fs s reached) run).sound)
