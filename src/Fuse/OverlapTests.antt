-- ===== src/Fuse/OverlapTests.antt =====
-- The theorems about a `Close` of the file system that overlaps with requests, at concrete inputs.
use fuse_video_streamer.Base.{ℕ, ◌≡◌, refl, true, false, none, List, [], ◌∷◌, map}
use fuse_video_streamer.Go.{Ended, returns, ok}
use fuse_video_streamer.Client.{Client, Node, mode_dir}
use fuse_video_streamer.Client.Grpc.{answer_node, file_system}
use fuse_video_streamer.Client.Grpc
use fuse_video_streamer.Client.Grpc.Provider.{new_provider}
use fuse_video_streamer.Config.{get_file_servers, get, validate}
use fuse_video_streamer.Client.Tests.{stubs, dial, with_servers, here}
use fuse_video_streamer.Client.Repository.{get_client_by_name, new_repository, connect_all}
use fuse_video_streamer.Stream.Tests.Setup.{http, ring}
use fuse_video_streamer.Stream.Tests.Setup as Files
use fuse_video_streamer.Fuse.Registry.{directory, get_instance, without_nodes, nodes_of, add}
use fuse_video_streamer.Fuse.Directory.{Directory}
use fuse_video_streamer.Fuse.Directory.Requests
use fuse_video_streamer.Fuse.Directory.Services.{new_service, new_directory}
use fuse_video_streamer.Fuse.Root
use fuse_video_streamer.Fuse.FileSystem.{FileSystem, Session, close_node, new_file_system}
use fuse_video_streamer.Fuse.FileSystem as Whole
use fuse_video_streamer.Fuse.FileSystem.Follows.{IsSound, with_directory}
use fuse_video_streamer.Fuse.FileSystem.Reach.{
  with_tree, makes_root, asks_root, Reach, begins, goes_on,
}
use fuse_video_streamer.Fuse.FileSystem.Overlap.{
  State, with_instances, ended, requests, swaps, drops, enters, empties, closes, joins, ends,
  Actions, stays, acts,
}
use fuse_video_streamer.Fuse.FileSystem.Overlap.Shut.{IsShut}
use fuse_video_streamer.Fuse.FileSystem.Overlap.Closed.{about_to_close, overlapped-IsShut}
use fuse_video_streamer.Fuse.FileSystem.Overlap.Outlives.{StillServes, root_outlives_close}
use fuse_video_streamer.Fuse.SessionTests.{
  first, no_streams, root, directory_of_films, second, runtime, runtime-IsFair,
}

abbrev session_of :
    Ended (FileSystem × Session ℕ (List ℕ) Files.Buffer) → Session ℕ (List ℕ) Files.Buffer
session_of (returns (fs, s)) = s
session_of _ = second

reached : Reach http ring second
unfolding Root.lookup
reached = goes_on (begins 0 no_streams 0 0) (asks_root root "films")

-- A second lookup of the client comes in behind the loop over the nodes of its registry: the new
-- directory goes with the registry's list, and nobody closes it.
abbrev third : Session ℕ (List ℕ) Files.Buffer
third = with_tree second (Root.lookup root "films" second.tree).1

abbrev emptied : Session ℕ (List ℕ) Files.Buffer
emptied = with_instances third (without_nodes third.tree.instances "films")

abbrev last : State ℕ (List ℕ) Files.Buffer
last = record {
  file_system = record { service = none; closed = true };
  session = with_directory emptied 0 (Requests.close directory_of_films);
  closer = ended;
}

run : Actions http ring (about_to_close http ring new_file_system second) last
unfolding new_file_system Root.lookup get_client_by_name new_service get_instance new_directory
    close_node add
run =
    acts
      (acts
        (acts
          (acts
            (acts
              (acts (acts (acts stays (swaps refl refl)) (drops false refl refl))
                (enters [] [] "films" refl))
              (requests third (asks_root root "films")))
            (empties "films" (directory 0 ∷ []) [] refl))
          (closes runtime [] [] (directory 0) []
            (with_directory emptied 0 (Requests.close directory_of_films)) refl refl))
        (joins [] refl))
      (ends refl)

lost :
    (map (λ (d : Directory). d.closed) last.session.tree.directories ≡ true ∷ false ∷ [])
    × (nodes_of last.session.tree.instances "films" ≡ [])
unfolding Root.lookup get_client_by_name new_service get_instance new_directory add Requests.close
lost = (refl, refl)

overlapped-IsShut_example : IsShut (directory 0) last.session × IsSound last.session
unfolding new_file_system Root.lookup get_client_by_name new_service get_instance new_directory
overlapped-IsShut_example =
    overlapped-IsShut http ring new_file_system second last (directory 0) reached refl
      (directory_of_films, refl) run refl

-- The file system makes its root, in which the kernel looks up the client.
abbrev stub_client : Client ℕ
stub_client = record { name = "media"; file_system = file_system stubs }

abbrev stub_top : Node
stub_top = record { id = 1; name = "shows"; mode = mode_dir; streamable = false }

abbrev stub_root : Root.Root ℕ
stub_root = record { clients = stub_client ∷ []; has_service = true; closed = false }

abbrev rooted : Session ℕ (List ℕ) Files.Buffer
rooted = record first { roots = stub_root ∷ [] }

abbrev asked : Session ℕ (List ℕ) Files.Buffer
asked = with_tree rooted (Root.lookup stub_root "media" rooted.tree).1

asked-Reach : Reach http ring asked
unfolding Root.lookup new_file_system Whole.root Whole.new_root new_repository connect_all
    new_provider get_file_servers get validate get_client_by_name
asked-Reach =
    goes_on
      (goes_on (begins 0 no_streams 0 0)
        (makes_root dial (ok (with_servers (here ∷ []))) new_file_system stub_root refl))
      (asks_root stub_root "media")

-- The directory was closed, and its registry emptied.
abbrev gone : Session ℕ (List ℕ) Files.Buffer
gone = session_of (Whole.close http ring runtime new_file_system asked)

abbrev down : FileSystem
down = record { service = none; closed = true }

root_outlives_close_example : StillServes http ring runtime down gone 0 stub_root "media"
unfolding new_file_system get_client_by_name Grpc.root answer_node Whole.close Whole.close_instances
    Whole.close_registries Root.lookup new_service get_instance new_directory add Whole.close_all
    close_node
root_outlives_close_example =
    root_outlives_close stub_client stub_top (λ r. refl) http ring runtime false new_file_system
      down asked gone 0 stub_root "media" asked-Reach runtime-IsFair refl refl refl refl refl refl
