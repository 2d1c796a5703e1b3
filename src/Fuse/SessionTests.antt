-- ===== src/Fuse/SessionTests.antt =====
-- The theorems about the streamable nodes, the registries and the file system, at concrete inputs.
use fuse_video_streamer.Base.{
  ℕ, zero, suc, ◌-◌, ◌<◌, ◌==◌, arith, if◌then◌else◌, ◌≡◌, refl, true, false, none, some, List, [],
  ◌∷◌,
}
use fuse_video_streamer.Go.{ok, external, Ended, returns}
use fuse_video_streamer.Client.{Client, Node, mode_dir}
use fuse_video_streamer.Client.Tests.{media, empty_files}
use fuse_video_streamer.Stream.Transfer.{Move}
use fuse_video_streamer.Stream.Core.{new}
use fuse_video_streamer.Stream.Core
use fuse_video_streamer.Stream.Tests.Setup.{http, ring}
use fuse_video_streamer.Stream.Tests.Setup as Files
use fuse_video_streamer.Stream.Factory.{new_stream, get_stream_url, make_stream, store_url}
use fuse_video_streamer.Fuse.Pool.{BufferPool}
use fuse_video_streamer.Fuse.Registry.{get_instance}
use fuse_video_streamer.Fuse.Interfaces.{
  Fs, streamable_node, file_node, directory_node, root_node, file_type, methods_of, asserts,
}
use fuse_video_streamer.Fuse.Interfaces.Assertions.{asserts-methods_of}
use fuse_video_streamer.Fuse.Streamable.Handle.{World, new_handle, close_stream}
use fuse_video_streamer.Fuse.Streamable.Handle
use fuse_video_streamer.Fuse.Streamable.Node.{
  Moment, new_node, open_stream, open_handle, open_node, close_handles, close_service, close,
}
use fuse_video_streamer.Fuse.Streamable.Node as Streamable
use fuse_video_streamer.Fuse.Streamable.Node.Closing.{new_node-IsWell, Stopped, close-Stopped}
use fuse_video_streamer.Fuse.Streamable.Node.Opening.{open_node-Keeps, open_behind_close_gives_nil}
use fuse_video_streamer.Fuse.Directory.{Service, Directory}
use fuse_video_streamer.Fuse.Directory.Requests
use fuse_video_streamer.Fuse.Directory.Services.{new_service, new_directory, new_streamable}
use fuse_video_streamer.Client.Repository.{get_client_by_name}
use fuse_video_streamer.Fuse.Root.{Root}
use fuse_video_streamer.Fuse.Root
use fuse_video_streamer.Fuse.Server.{Mount}
use fuse_video_streamer.Fuse.Server.Unmount.{tried, Busy}
use fuse_video_streamer.Fuse.FileSystem.{FileSystem, Session, Runtime, new_file_system}
use fuse_video_streamer.Fuse.FileSystem as Whole
use fuse_video_streamer.Fuse.FileSystem.Closing.{IsFair, Down}
use fuse_video_streamer.Fuse.FileSystem.Reach.{
  no_nodes, with_tree, after_streamable_open, asks_root, looks_up, opens_streamable, Reach, begins,
  goes_on,
}
use fuse_video_streamer.Fuse.FileSystem.Reached.{Reach-IsGood, reached-Down}
use fuse_video_streamer.Fuse.FileSystem.Good.{IsGood}

abbrev fs : Fs
fs = record {
  node = "Attr" ∷ [];
  node_opener = "Open" ∷ [];
  node_request_lookuper = "Lookup" ∷ [];
  node_remover = "Remove" ∷ [];
  node_renamer = "Rename" ∷ [];
  node_creater = "Create" ∷ [];
  node_mkdirer = "Mkdir" ∷ [];
  node_linker = "Link" ∷ [];
  node_fsyncer = "Fsync" ∷ [];
  handle = [];
  handle_read_dir_aller = "ReadDirAll" ∷ [];
  handle_read_aller = "ReadAll" ∷ [];
  handle_reader = "Read" ∷ [];
  handle_writer = "Write" ∷ [];
  handle_releaser = "Release" ∷ [];
  handle_flusher = "Flush" ∷ [];
  file_system = "Root" ∷ [];
}

asserts-methods_of_example :
    (asserts (methods_of file_type) (streamable_node fs) ≡ true)
    × (asserts (methods_of file_type) (file_node fs) ≡ true)
    × (asserts (methods_of file_type) (directory_node fs) ≡ false)
    × (asserts (methods_of file_type) (root_node fs) ≡ false)
asserts-methods_of_example =
    asserts-methods_of fs file_type (refl, refl, refl, refl, refl, refl, refl, refl)

abbrev empty_pool : BufferPool
empty_pool = record { small_pool = []; medium_pool = []; large_pool = []; max_pool = []; next = 0 }

abbrev pub no_streams : World (List ℕ) Files.Buffer
no_streams = record { increment_id = 0; streams = []; pool = empty_pool; memory = λ a. [] }

abbrev pub moment : Moment (List ℕ)
moment = record { network = []; id = "1"; now = 100; later = 200 }

-- A node with one handle, and its stream.
abbrev pub opened : Streamable.Node
opened = (open_node http ring media moment 0 no_streams (new_node 3 5)).0.1

abbrev pub one_stream : World (List ℕ) Files.Buffer
one_stream = (open_node http ring media moment 0 no_streams (new_node 3 5)).0.2

abbrev pub at_once : ℕ → List Move
at_once i = []

close-Stopped_example :
    Stopped http ring one_stream.streams (close http ring at_once one_stream opened)
close-Stopped_example =
    close-Stopped http ring at_once one_stream opened
      (open_node-Keeps http ring media moment 0 no_streams (new_node 3 5)
        (new_node-IsWell [] 3 5)).0

abbrev node_of : Ended (Streamable.Node × World (List ℕ) Files.Buffer) → Streamable.Node
node_of (returns (n, w)) = n
node_of _ = opened

abbrev world_of :
    Ended (Streamable.Node × World (List ℕ) Files.Buffer) → World (List ℕ) Files.Buffer
world_of (returns (n, w)) = w
world_of _ = one_stream

open_behind_close_gives_nil_example :
    let n = node_of (close http ring at_once one_stream opened) in
    open_handle http ring media moment 0 one_stream n
    ≡ ((ok none, record n { handles = some 0 ∷ none ∷ [] }, one_stream), 0)
unfolding open_node open_handle open_stream new_stream get_stream_url make_stream store_url new_node
    new_handle close close_handles close_service Handle.close close_stream Core.close Core.new
open_behind_close_gives_nil_example =
    open_behind_close_gives_nil http ring media moment at_once 0 one_stream
      (world_of (close http ring at_once one_stream opened)) one_stream opened
      (node_of (close http ring at_once one_stream opened)) refl refl

-- A remote file system with one video in its root.
abbrev pub top : Node
top = record { id = 1; name = "films"; mode = mode_dir; streamable = false }

abbrev film : Node
film = record { id = 3; name = "film"; mode = 0; streamable = true }

abbrev pub films : Client ℕ
films = record {
  name = "films";
  file_system = record empty_files {
    root = λ r name. ((some top, none), r);
    lookup = λ r id name. ((some film, none), r);
  };
}

abbrev pub root : Root ℕ
root = record { clients = films ∷ []; has_service = true; closed = false }

abbrev service : Service
service = record { registry = "films"; closed = false }

abbrev pub directory_of_films : Directory
directory_of_films = record {
  identifier = 1;
  directory_node_service = service;
  streamable_node_service = service;
  file_node_service = service;
  handles = [];
  closed = false;
}

-- The kernel looks up the client and the film, and opens the film.
abbrev pub first : Session ℕ (List ℕ) Files.Buffer
first = record { tree = no_nodes 0 0 0; world = no_streams; roots = [] }

abbrev pub second : Session ℕ (List ℕ) Files.Buffer
second = with_tree first (Root.lookup root "films" first.tree).1

abbrev third : Session ℕ (List ℕ) Files.Buffer
third = with_tree second (Requests.lookup films directory_of_films "film" second.tree).1

abbrev pub fourth : Session ℕ (List ℕ) Files.Buffer
fourth =
    after_streamable_open third 0
      (open_node http ring films moment third.tree.remote third.world (new_node 3 5))

reached : Reach http ring fourth
unfolding Root.lookup Requests.lookup new_node get_client_by_name new_service get_instance
    new_directory Requests.node_of new_streamable
reached =
    goes_on
      (goes_on (goes_on (begins 0 no_streams 0 0) (asks_root root "films"))
        (looks_up films 0 directory_of_films "film" refl))
      (opens_streamable films moment 0 (new_node 3 5) refl)

Reach-IsGood_example : IsGood fourth
Reach-IsGood_example = Reach-IsGood http ring reached

abbrev pub runtime : Runtime
runtime = record { goroutines = λ ns. ns; entries = λ a. a; moves = λ i j. [] }

pub runtime-IsFair : IsFair runtime
runtime-IsFair = record { goroutines = λ n ns p. p; entries = λ n a p. p }

reached-Down_example : Down http ring fourth (Whole.close http ring runtime new_file_system fourth)
unfolding new_file_system
reached-Down_example =
    reached-Down http ring runtime false new_file_system fourth reached runtime-IsFair refl refl

-- A mount that is busy for so many tries as its state says.
abbrev pub mount : Mount ℕ
mount = record {
  try_unmount = λ n. ((if n == 0 then none else some (external 1)), n - 1);
  is_busy = λ e. true;
  close_connection = λ n. (none, n);
}

pub two_tries : (i : ℕ) → i < 2 → Busy mount (mount.try_unmount (tried mount i 2)).0
two_tries zero below = refl
two_tries (suc zero) below = refl
two_tries (suc (suc i)) below = absurd (omega (arith, below))
