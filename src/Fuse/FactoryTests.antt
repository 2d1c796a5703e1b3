-- ===== src/Fuse/FactoryTests.antt =====
-- The theorems about the loggers of the nodes and about two Opens at a time, at concrete inputs.
use Prim.Native.String.{◌++◌}
use fuse_video_streamer.Base.{
  ℕ, ◌+◌, ◌≡◌, refl, false, true, none, some, List, [], ◌∷◌, get_elem?, arith,
}
use fuse_video_streamer.Go.{ok}
use fuse_video_streamer.Logger.{Os, create_logger, get_logger, new_logger}
use fuse_video_streamer.Fuse.Registry.{directory, get_instance}
use fuse_video_streamer.Fuse.Directory.{Service}
use fuse_video_streamer.Fuse.Directory.Services.{new_service}
use fuse_video_streamer.Fuse.Directory.Services as Services
use fuse_video_streamer.Fuse.Root
use fuse_video_streamer.Client.Repository.{get_client_by_name}
use fuse_video_streamer.Fuse.Factories.{
  Making, with_tree, log, new_directory_node_service, new_streamable_node_service,
  new_file_node_service, with_services, new_directory,
}
use fuse_video_streamer.Fuse.Factories.Refines.{Refines, later_nodes-Refines}
use fuse_video_streamer.Fuse.File.Node.{Node, new_node, open_node, open_handle, close}
use fuse_video_streamer.Fuse.File.Node.Closing.{open_node-IsWell, new_node-IsWell}
use fuse_video_streamer.Fuse.File.Node.Racing.{open_twice, LeavesOpen, open_twice-LeavesOpen}
use fuse_video_streamer.Stream.Tests.Setup.{http, ring}
use fuse_video_streamer.Stream.Tests.Setup as Files
use fuse_video_streamer.Stream.Factory.{
  new_stream, new_factory, get_stream_url, make_stream, store_url,
}
use fuse_video_streamer.Stream.Core as Core
use fuse_video_streamer.Client.Tests.{media}
use fuse_video_streamer.Base.Int.{pos}
use fuse_video_streamer.Stream.Transfer.{starts, copies}
use fuse_video_streamer.Stream.Core.{Stream, moves}
use fuse_video_streamer.Fuse.Streamable.Serving.{Answers}
use fuse_video_streamer.Fuse.Streamable.Node.Serving.{open_node-read-Answers}
use fuse_video_streamer.Fuse.Streamable.Handle as Handle
use fuse_video_streamer.Fuse.Streamable.Handle.{Handle, World, Circumstances, new_handle}
use fuse_video_streamer.Fuse.Streamable.Node as Streamable
use fuse_video_streamer.Fuse.Streamable.Node.Closing as Closing
use fuse_video_streamer.Fuse.Streamable.Node.Racing.{store_handle, lost_handle_stays_open}
use fuse_video_streamer.Fuse.Streamable.Node.Racing as Racing
use fuse_video_streamer.Fuse.SessionTests.{
  films, second, no_streams, moment, one_stream, opened, at_once,
}

-- A disk on which every file that is opened gets the next number.
abbrev os : Os ℕ
os = record {
  mkdir_all = λ x path. (none, x);
  open_file = λ x path. (ok x, x + 1);
  join = λ dir name. dir ++ "/" ++ name;
  dir = λ path. path;
  to_lower = λ name. name;
  replace_all = λ text old new. text;
}

abbrev service : Service
service = record { registry = "films"; closed = false }

abbrev begun : Making ℕ ℕ
begun = record { tree = second.tree; loggers = []; disk = 0 }

abbrev made : Making ℕ ℕ
made = (new_directory os films service 7 begun).1

two_files_opened : made.disk ≡ 2
unfolding new_directory log new_logger get_logger create_logger with_services
    new_directory_node_service new_streamable_node_service new_file_node_service new_service
    get_instance
two_files_opened = refl

later_nodes-Refines_example : Refines os films service 8 (with_tree made second.tree)
unfolding new_directory log new_logger get_logger create_logger with_services
    new_directory_node_service new_streamable_node_service new_file_node_service new_service
    get_instance Root.lookup get_client_by_name Services.new_directory
later_nodes-Refines_example =
    later_nodes-Refines os films service service 7 8 (directory 1) begun made second.tree refl refl

-- A file node of five bytes with one handle.
abbrev opened_once : Node
opened_once = (open_node 7 (new_node 3 5)).1

open_twice-LeavesOpen_example : LeavesOpen 1 (close (open_twice 8 opened_once false))
unfolding open_node new_node open_handle
open_twice-LeavesOpen_example =
    open_twice-LeavesOpen 8 opened_once false refl
      (open_node-IsWell 7 (new_node 3 5) (new_node-IsWell 3 5))

-- A streamable node that was opened twice.
abbrev second_node : Streamable.Node
second_node = (Streamable.open_handle http ring media moment 0 one_stream opened).0.1

abbrev two_streams : World (List ℕ) Files.Buffer
two_streams = (Streamable.open_handle http ring media moment 0 one_stream opened).0.2

lost_handle_stays_open_example :
    Racing.LeavesOpen http ring 1
      (Streamable.close http ring at_once two_streams (store_handle [] (some 0) second_node))
unfolding Streamable.open_node Streamable.open_handle Streamable.open_stream new_stream
    get_stream_url make_stream store_url Streamable.new_node new_handle Core.new
lost_handle_stays_open_example =
    lost_handle_stays_open http ring media moment moment 0 0 0 no_streams one_stream two_streams
      (Streamable.new_node 3 5) opened second_node 0 1 true at_once refl
      (Closing.new_node-IsWell {W = List ℕ} {B = Files.Buffer} [] 3 5) refl refl

-- The read waits, while `start` spawns `copyData`, which reads and writes.
abbrev circumstances : Circumstances
circumstances = record {
  choice = none;
  starting = [];
  events =
      moves (starts true) ∷ moves (starts true) ∷ moves copies ∷ moves copies ∷ moves copies ∷ [];
  waited = true;
  closing = [];
}

open_node-read-Answers_example :
    (h : Handle) × (i : ℕ) × (s : Stream (List ℕ) Files.Buffer) × (get_elem? opened.objects 0
      ≡ some h)
    × (h.closed ≡ false)
    × (h.node_size ≡ 5)
    × (h.stream ≡ some i)
    × (get_elem? one_stream.streams i ≡ some s)
    × (s.url ≡ "http://host/1")
    × Answers Files.file Files.unread Files.first_of_buffer Files.window_of "http://host/1" h i 2 1
        (Handle.read http ring circumstances one_stream h 2 (pos 1))
unfolding Streamable.open_node Streamable.open_handle Streamable.open_stream new_stream
    get_stream_url make_stream store_url Streamable.new_node new_handle Streamable.make_service
    Streamable.new_service new_factory
open_node-read-Answers_example =
    open_node-read-Answers Files.file Files.unread Files.first_of_buffer Files.window_of
      "http://host/1" http ring (Files.serves "http://host/1") Files.buffers media moment 0 0
      no_streams one_stream (Streamable.new_node 3 5) opened new_factory 0 circumstances 2 1
      (omega arith) refl refl refl tt
