-- ===== src/Fuse/FileSystem/Reach.antt =====
-- The sessions that the requests of the kernel reach, one request after the other, for the nodes of
-- filesystem/server/provider/fuse/filesystem.
use Prim.Native.String.{String}
use fuse_video_streamer.Base.{ℕ, ◌≡◌, Option, some, List, [], ◌∷◌, ◌++◌, get_elem?, set}
use fuse_video_streamer.Base.Int.{ℤ}
use fuse_video_streamer.Go.{Outcome, ok}
use fuse_video_streamer.Config.{Config}
use fuse_video_streamer.Client.Grpc.{Api}
use fuse_video_streamer.Client.{Client}
use fuse_video_streamer.Stream.External.{Http, Ring}
use fuse_video_streamer.Stream.Transfer.{Move}
use fuse_video_streamer.Fuse.Streamable.Handle.{Handle, World, Circumstances, ReadReturn}
use fuse_video_streamer.Fuse.Streamable.Handle
use fuse_video_streamer.Fuse.Streamable.Node.{Moment}
use fuse_video_streamer.Fuse.Streamable.Node as Streamable
use fuse_video_streamer.Fuse.File.Node as File
use fuse_video_streamer.Fuse.Directory.{Directory, Tree}
use fuse_video_streamer.Fuse.Directory.Requests
use fuse_video_streamer.Fuse.Root.{Root}
use fuse_video_streamer.Fuse.Root
use fuse_video_streamer.Fuse.FileSystem.{FileSystem, Session, root as make_root}

-- No node was made.
abbrev pub no_nodes : {R : Type 0} → R → ℕ → ℕ → Tree R
no_nodes r increment_id directory_handle_id = record {
  remote = r;
  instances = [];
  directories = [];
  streamables = [];
  files = [];
  increment_id = increment_id;
  directory_handle_id = directory_handle_id;
}

module _ {R W B : Type 0} where
  abbrev pub with_tree : Session R W B → Tree R → Session R W B
  with_tree s t = record s { tree = t }

  -- The directory at an index behind an `Open`.
  abbrev pub after_directory : Session R W B → ℕ → Outcome ℕ × Directory × ℕ → Session R W B
  after_directory s i (x, d, id) =
      with_tree s
        (record s.tree { directories = set s.tree.directories i d; directory_handle_id = id })

  abbrev pub after_file_open :
      Session R W B → ℕ → Outcome (Option ℕ) × File.Node × ℕ → Session R W B
  after_file_open s i (x, n, id) =
      with_tree s (record s.tree { files = set s.tree.files i n; increment_id = id })

  abbrev pub after_streamable_open :
      Session R W B → ℕ → (Outcome (Option ℕ) × Streamable.Node × World W B) × R → Session R W B
  after_streamable_open s i ((x, n, w), r) = record s {
    tree = record s.tree { streamables = set s.tree.streamables i n; remote = r };
    world = w;
  }

  -- The handle with an index of the streamable node with an index, behind a call.
  abbrev pub after_handle :
      Session R W B → ℕ → Streamable.Node → ℕ → Handle → World W B → Session R W B
  after_handle s i n j h w = record s {
    tree = record s.tree {
      streamables = set s.tree.streamables i (record n { objects = set n.objects j h });
    };
    world = w;
  }

module _ {R W B : Type 0} (http : Http W) (ring : Ring B) where
  -- A request, and the session that it leaves. What it returns is left out.
  pub data Step (s : Session R W B) : Session R W B → Type 0 where
    -- `Root()` of the file system makes a root node.
    makes_root :
        (dial : String → Outcome (Api R)) (config : Outcome Config) (fs : FileSystem)
        (root : Root R)
        → make_root dial config fs ≡ ok (some root)
        → Step s (record s { roots = s.roots ++ root ∷ [] })
    -- Of a root, whichever clients it has.
    asks_root :
        (root : Root R) (name : String) → Step s (with_tree s (Root.lookup root name s.tree).1)
    -- Of a directory.
    looks_up :
        (c : Client R) (i : ℕ) (d : Directory) (name : String)
        → get_elem? s.tree.directories i ≡ some d
        → Step s (with_tree s (Requests.lookup c d name s.tree).1)
    makes_directory :
        (c : Client R) (i : ℕ) (d : Directory) (name : String)
        → get_elem? s.tree.directories i ≡ some d
        → Step s (with_tree s (Requests.mkdir c d name s.tree).1)
    creates :
        (c : Client R) (i : ℕ) (d : Directory) (name : String) (mode : ℕ)
        → get_elem? s.tree.directories i ≡ some d
        → Step s (with_tree s (Requests.create c d name mode s.tree).1)
    opens_directory :
        (i : ℕ) (d : Directory)
        → get_elem? s.tree.directories i ≡ some d
        → Step s (after_directory s i (Requests.open_directory s.tree.directory_handle_id d))
    opens_file :
        (i : ℕ) (n : File.Node)
        → get_elem? s.tree.files i ≡ some n
        → Step s (after_file_open s i (File.open_node s.tree.increment_id n))
    opens_streamable :
        (c : Client R) (m : Moment W) (i : ℕ) (n : Streamable.Node)
        → get_elem? s.tree.streamables i ≡ some n
        → Step s
            (after_streamable_open s i (Streamable.open_node http ring c m s.tree.remote s.world n))
    -- Of a handle of a streamable node.
    reads :
        (c : Circumstances) (i j k : ℕ) (offset : ℤ) (n : Streamable.Node) (h h' : Handle)
        (x : ReadReturn) (w : World W B)
        → get_elem? s.tree.streamables i ≡ some n
        → get_elem? n.objects j ≡ some h
        → Handle.read http ring c s.world h k offset ≡ some (x, h', w)
        → Step s (after_handle s i n j h' w)
    releases :
        (ms : List Move) (i j : ℕ) (n : Streamable.Node) (h h' : Handle) (w : World W B)
        → get_elem? s.tree.streamables i ≡ some n
        → get_elem? n.objects j ≡ some h
        → Handle.release http ring ms s.world h ≡ some (h', w)
        → Step s (after_handle s i n j h' w)
    -- All others change the remote side only.
    answers : (r : R) → Step s (with_tree s (record s.tree { remote = r }))

  -- From a session without nodes.
  pub data Reach : Session R W B → Type 0 where
    begins :
        (r : R) (w : World W B) (increment_id directory_handle_id : ℕ)
        → Reach
            (record { tree = no_nodes r increment_id directory_handle_id; world = w; roots = [] })
    goes_on : {s t : Session R W B} → Reach s → Step s t → Reach t
