-- ===== src/Program/Tests.antt =====
-- The theorems about the start and the end of the program, at concrete inputs.
use fuse_video_streamer.Base.{ℕ, refl, List, [], ◌∷◌, arith}
use fuse_video_streamer.Go.{ok}
use fuse_video_streamer.Config.{Config, get, validate, get_mount_point, get_volume_name}
use fuse_video_streamer.Fuse.FileSystem.{FileSystem, Session, new_file_system}
use fuse_video_streamer.Fuse.FileSystem.Reach.{no_nodes}
use fuse_video_streamer.Fuse.Service.{Kernel, make_server, new_server}
use fuse_video_streamer.Fuse.Streamable.Node.{new_node}
use fuse_video_streamer.Fuse.Directory.Requests
use fuse_video_streamer.Fuse.Directory.Services.{new_service, new_directory, new_streamable}
use fuse_video_streamer.Fuse.Registry.{get_instance}
use fuse_video_streamer.Fuse.Root
use fuse_video_streamer.Client.Repository.{get_client_by_name}
use fuse_video_streamer.Stream.Tests.Setup.{http, ring}
use fuse_video_streamer.Stream.Tests.Setup as Files
use fuse_video_streamer.Fuse.FileSystem.Reach.{asks_root, looks_up, opens_streamable}
use fuse_video_streamer.Fuse.Server.Ending.{close_served, Finished}
use fuse_video_streamer.Fuse.SessionTests.{
  films, no_streams, root, directory_of_films, moment, first, fourth, runtime, runtime-IsFair,
  mount, two_tries,
}
use fuse_video_streamer.Program.{start, stop}
use fuse_video_streamer.Program.Ending.{Leads, stays, asks, with_session, program_ends}

abbrev config : Config
config = record {
  mount_point = "/mnt";
  volume_name = "films";
  file_servers = (record { name = "media"; target = "host:1" }) ∷ [];
}

abbrev kernel : Kernel ℕ
kernel = record { mount = λ mountpoint volume_name. ok 7 }

abbrev session : Session ℕ ℕ ℕ
session = record {
  tree = no_nodes 0 0 0;
  world = record {
    increment_id = 0;
    streams = [];
    pool = record { small_pool = []; medium_pool = []; large_pool = []; max_pool = []; next = 0 };
    memory = λ a. [];
  };
  roots = [];
}

abbrev initial : FileSystem × Session ℕ ℕ ℕ
initial = (new_file_system, session)

-- The program serves one film, which is looked up and opened; the mount is busy for two tries.
abbrev busy_kernel : Kernel ℕ
busy_kernel = record { mount = λ mountpoint volume_name. ok 2 }

leads : Leads http ring first fourth
unfolding Root.lookup Requests.lookup new_node get_client_by_name new_service get_instance
    new_directory Requests.node_of new_streamable
leads =
    asks
      (asks (asks stays (asks_root root "films")) (looks_up films 0 directory_of_films "film" refl))
      (opens_streamable films moment 0 (new_node 3 5) refl)

abbrev served : FileSystem × Session ℕ (List ℕ) Files.Buffer
served = (new_file_system, first)

program_ends_example : Finished http ring runtime mount 0 fourth (
    stop mount
      (close_served http ring runtime mount)
      5
      (with_session fourth (make_server 2 served)))
unfolding new_file_system start validate get get_mount_point get_volume_name new_server make_server
program_ends_example =
    program_ends http ring busy_kernel runtime mount config 0 no_streams 0 0 (make_server 2 served)
      fourth 2 5 refl leads runtime-IsFair two_tries tt (omega arith)
