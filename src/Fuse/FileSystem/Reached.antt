-- ===== src/Fuse/FileSystem/Reached.antt =====
-- What holds of the sessions that requests reach, and their `Close`.
use mathlib.Core.Path.{subst}
use fuse_video_streamer.Base.{
  ℕ, ◌≡◌, ◌++◌, ◌∷◌, [], Bool, true, false, Option, some, get_elem?, set,
}
use fuse_video_streamer.Go.{Outcome}
use fuse_video_streamer.Client.{Client}
use fuse_video_streamer.Stream.External.{Http, Ring}
use fuse_video_streamer.Fuse.Streamable.Handle.{Handle, World}
use fuse_video_streamer.Fuse.Streamable.Reading.{
  Carried, CarriedBy, read-CarriedBy, release-Carried,
}
use fuse_video_streamer.Fuse.Streamable.Node as Streamable
use fuse_video_streamer.Fuse.Streamable.Node.Opening as Openings
use fuse_video_streamer.Fuse.Streamable.Node.Holding.{IsWell-Settled, Carried-IsWell}
use fuse_video_streamer.Fuse.File.Node as File
use fuse_video_streamer.Fuse.File.Node.Closing as Files
use fuse_video_streamer.Fuse.Directory.Requests
use fuse_video_streamer.Fuse.Directory.Made.{lookup-Makes, mkdir-Makes, create-Makes}
use fuse_video_streamer.Fuse.Directory.Tidy.{open_directory-IsTidy}
use fuse_video_streamer.Fuse.Directory.Served.{AllServed, AllServed-get}
use fuse_video_streamer.Fuse.FileSystem.Follows.{IsSound}
use fuse_video_streamer.Fuse.FileSystem.Advances.{
  Advances, Grown-Advances, after_directory-Advances, after_file_open-Advances, streamable-Advances,
  with_roots-Advances, with_remote-Advances, open_directory-Served, open_directory-keeps_closed,
}
use fuse_video_streamer.Fuse.Root.{Root}
use fuse_video_streamer.Fuse.Root
use fuse_video_streamer.Fuse.Root.Made.{lookup-Grown}
use fuse_video_streamer.Fuse.FileSystem.{FileSystem, Session, Runtime, close}
use fuse_video_streamer.Fuse.FileSystem.Closing.{IsFair, Down, close-Down}
use fuse_video_streamer.Fuse.FileSystem.Reach.{
  after_streamable_open, after_handle, Step, asks_root, makes_root, looks_up, makes_directory,
  creates, opens_directory, opens_file, opens_streamable, reads, releases, answers, Reach, begins,
  goes_on,
}
use fuse_video_streamer.Fuse.FileSystem.Good.{IsGood, no_nodes-IsGood}

module _ {R W B : Type 0} (http : Http W) (ring : Ring B) where
  after_handle-Advances :
      (s : Session R W B) (i j : ℕ) (n : Streamable.Node) (h h' : Handle) (w : World W B)
      → IsSound s
      → get_elem? s.tree.streamables i ≡ some n
      → get_elem? n.objects j ≡ some h
      → Carried s.world.streams h h' w.streams
      → Advances s (after_handle s i n j h' w)
  after_handle-Advances s i j n h h' w sound e q carried =
      streamable-Advances s i n (record n { objects = set n.objects j h' }) w s.tree.remote e
        (Carried-IsWell s.world.streams w.streams n j h h' (sound.1 i n e) q carried) carried.2
        (λ c. c)

  opened-Advances :
      (s : Session R W B) (i : ℕ) (n : Streamable.Node)
      (r : (Outcome (Option ℕ) × Streamable.Node × World W B) × R) (client : Client R)
      → get_elem? s.tree.streamables i ≡ some n
      → Openings.Keeps http ring client s.world.streams r.0
      → (n.closed ≡ true → r.0.1.closed ≡ true)
      → Advances s (after_streamable_open s i r)
  opened-Advances s i n ((x, n', w), r) client e (well, more) still =
      streamable-Advances s i n n' w r e well more still

  -- Of a directory: it is served, since all are.
  pub step-Advances :
      {s t : Session R W B}
      → AllServed s.tree.instances s.tree.directories
      → IsSound s
      → Step http ring s t
      → Advances s t
  step-Advances {s} served sound (asks_root root name) =
      Grown-Advances s (Root.lookup root name s.tree) (lookup-Grown root name s.tree)
  step-Advances {s} served sound (looks_up c i d name e) =
      Grown-Advances s (Requests.lookup c d name s.tree) (
        lookup-Makes c d name s.tree
          (AllServed-get s.tree.instances s.tree.directories i d served e))
  step-Advances {s} served sound (makes_directory c i d name e) =
      Grown-Advances s (Requests.mkdir c d name s.tree) (
        mkdir-Makes c d name s.tree
          (AllServed-get s.tree.instances s.tree.directories i d served e))
  step-Advances {s} served sound (creates c i d name mode e) =
      Grown-Advances s (Requests.create c d name mode s.tree) (
        create-Makes c d name mode s.tree
          (AllServed-get s.tree.instances s.tree.directories i d served e))
  step-Advances {s} served sound (opens_directory i d e) =
      after_directory-Advances s i d (Requests.open_directory s.tree.directory_handle_id d) e
        (open_directory-Served s.tree.instances s.tree.directory_handle_id d)
        (open_directory-IsTidy s.tree.directory_handle_id d)
        (open_directory-keeps_closed s.tree.directory_handle_id d)
  step-Advances {s} served sound (opens_file i n e) =
      after_file_open-Advances s i n (File.open_node s.tree.increment_id n) e
        (Files.open_node-IsWell s.tree.increment_id n)
        (Files.open_node-keeps_closed s.tree.increment_id n)
  step-Advances {s} served sound (opens_streamable c m i n e) =
      opened-Advances s i n (Streamable.open_node http ring c m s.tree.remote s.world n) c e
        (Openings.open_node-Keeps http ring c m s.tree.remote s.world n (sound.1 i n e))
        (Openings.open_node-keeps_closed http ring c m s.tree.remote s.world n)
  step-Advances {s} served sound (reads c i j k offset n h h' x w e q r) =
      after_handle-Advances s i j n h h' w sound e q (
        subst (CarriedBy http ring s.world.streams h) r (
          read-CarriedBy http ring c s.world h k offset
            (IsWell-Settled s.world.streams s.world.streams n j h (sound.1 i n e) q)))
  step-Advances {s} served sound (releases ms i j n h h' w e q r) =
      after_handle-Advances s i j n h h' w sound e q (
        release-Carried http ring ms s.world w h h'
          (IsWell-Settled s.world.streams s.world.streams n j h (sound.1 i n e) q) r)
  step-Advances {s} served sound (answers r) = with_remote-Advances s r
  step-Advances {s} served sound (makes_root dial config fs root e) =
      with_roots-Advances s (s.roots ++ root ∷ [])

  step-IsGood : {s t : Session R W B} → IsGood s → Step http ring s t → IsGood t
  step-IsGood {s} {t} (k, w) step =
      let on = step-Advances k.served w step in (on.kept k, on.sound w)

  -- In every session that requests reach from one without nodes (the making of roots, lookups in a
  -- root and in directories, Mkdir, Create, the opening of directories, files and streamable
  -- nodes, Read and Release of streamable handles, whatever happens in them, and changes of the
  -- remote side), all nodes are in a registry, and they are well-formed: an open file node or
  -- streamable node holds all its handles, of a closed one and of a closed directory the handles
  -- are closed, and where a streamable handle is closed its stream is.
  pub Reach-IsGood : {s : Session R W B} → Reach http ring s → IsGood s
  Reach-IsGood (begins r w i d) = no_nodes-IsGood r w i d
  Reach-IsGood (goes_on reached step) = step-IsGood (Reach-IsGood reached) step

  -- From a session that requests reach, a Close of a file system that is open and has its root
  -- node service, if the runtime runs all goroutines of CloseNodes and goes through the whole map
  -- of the registries, never panics, and when it returns, the file system and every directory,
  -- streamable node and file node that was ever made are closed and well-formed: so are all
  -- handles of all of them, and the streams of those of streamable nodes.
  pub reached-Down :
      (rt : Runtime) (c : Bool) (fs : FileSystem) (s : Session R W B)
      → Reach http ring s
      → IsFair rt
      → fs.closed ≡ false
      → fs.service ≡ some c
      → Down http ring s (close http ring rt fs s)
  reached-Down rt c fs s reached fair running served =
      let (k, w) : IsGood s = Reach-IsGood reached in
      close-Down http ring rt fs c s fair k w running served
