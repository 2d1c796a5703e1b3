-- ===== src/Fuse/NodeTests.antt =====
-- The theorems about the files and the directories, at concrete inputs.
use fuse_video_streamer.Base.{
  ℕ, ◌-◌, ◌≡◌, refl, inl, true, false, none, some, [], ◌∷◌, ◌==◌, if◌then◌else◌,
}
use fuse_video_streamer.Go.{panics, explicit, external}
use fuse_video_streamer.Client.{Client, Node, mode_dir}
use fuse_video_streamer.Client.Tests.{media, empty_files, stubs, stubs-Faults}
use fuse_video_streamer.Client.Grpc.{file_system}
use fuse_video_streamer.Client.Grpc.Answers.{Present, Answers, file_system-Answers}
use fuse_video_streamer.Fuse.Directory.Pointers.{NoNil, requests-NoNil}
use fuse_video_streamer.Fuse.File.Node.{
  new_node, open_by, open_handle, open_node, close_handles, close,
}
use fuse_video_streamer.Fuse.File.Node as File
use fuse_video_streamer.Fuse.File.Node.Closing.{
  new_node-IsWell, open_node-IsWell, Refused, close-Refused,
}
use fuse_video_streamer.Fuse.Directory.{Service, Directory, Tree}
use fuse_video_streamer.Fuse.Directory.Requests.{node_of, lookup, mkdir}
use fuse_video_streamer.Fuse.Registry.{directory}
use fuse_video_streamer.Fuse.Root.{Root, top_of}
use fuse_video_streamer.Fuse.Root
use fuse_video_streamer.Client.Repository.{get_clients}
use fuse_video_streamer.Fuse.Root.Clients.{listed_clients_resolve}
use fuse_video_streamer.Fuse.Server.{Mount, unmount}
use fuse_video_streamer.Fuse.Server.Unmount.{tried, Busy, unmount_never_ends}
use fuse_video_streamer.Fuse.Directory.Listing.{Shows, node_of-Shows}
use fuse_video_streamer.Fuse.Directory.Laws.{lookup_panics}

-- A file node of five bytes with one handle.
abbrev opened_once : File.Node
opened_once = (open_node 7 (new_node 3 5)).1

close-Refused_example : Refused media (close opened_once)
close-Refused_example =
    close-Refused media opened_once (open_node-IsWell 7 (new_node 3 5) (new_node-IsWell 3 5))

abbrev service : Service
service = record { registry = "media"; closed = false }

abbrev top : Directory
top = record {
  identifier = 1;
  directory_node_service = service;
  streamable_node_service = service;
  file_node_service = service;
  handles = [];
  closed = false;
}

abbrev tree : Tree ℕ
tree = record {
  remote = 0;
  instances = ("media", directory 0 ∷ []) ∷ [];
  directories = top ∷ [];
  streamables = [];
  files = [];
  increment_id = 0;
  directory_handle_id = 0;
}

abbrev season : Node
season = record { id = 2; name = "season"; mode = mode_dir; streamable = false }

abbrev episode : Node
episode = record { id = 3; name = "episode"; mode = 0; streamable = true }

node_of-Shows_example : Shows media episode (node_of media top episode tree)
node_of-Shows_example = node_of-Shows media top episode tree

-- A remote file system that finds a directory, and whose root fails.
abbrev rootless : Client ℕ
rootless = record {
  name = "media";
  file_system = record empty_files {
    root = λ r name. ((none, some (external 3)), r);
    lookup = λ r id name. ((some season, none), r);
  };
}

lookup_panics_example : (lookup rootless top "season" tree).0 ≡ panics explicit
lookup_panics_example =
    lookup_panics rootless top "season" tree season 0 none (external 3) refl refl refl refl refl

abbrev root : Root ℕ
root = record { clients = media ∷ rootless ∷ []; has_service = true; closed = false }

listed_clients_resolve_example :
    (c : Client ℕ) × (c.name ≡ "media")
    × (Root.lookup root "media" tree
        ≡ top_of c
            (c.file_system.root 0 "media").0
            (record tree { remote = (c.file_system.root 0 "media").1 }))
unfolding Root.read_dir_all get_clients
listed_clients_resolve_example = listed_clients_resolve root "media" tree (inl refl)

-- A mount that is busy for so many tries as its state says.
abbrev mount : Mount ℕ
mount = record {
  try_unmount = λ n. ((if n == 0 then none else some (external 1)), n - 1);
  is_busy = λ e. true;
  close_connection = λ n. (none, n);
}

-- One that is busy for ever.
abbrev held : Mount ℕ
held = record mount { try_unmount = λ n. (some (external 1), n) }

all_tries : (i : ℕ) → Busy held (held.try_unmount (tried held i 2)).0
all_tries i = refl

unmount_never_ends_example : unmount held 5 2 ≡ none
unmount_never_ends_example = unmount_never_ends held 5 2 all_tries

abbrev remote : Client ℕ
remote = record { name = "media"; file_system = file_system stubs }

-- Its Lookup answers with neither a node nor an error.
abbrev nothing_found : Client ℕ
nothing_found = record {
  name = "media";
  file_system = record (file_system stubs) { lookup = λ r id name. ((none, none), r) };
}

requests-NoNil_example :
    NoNil (lookup nothing_found top "season" tree).0
    × (Present (nothing_found.file_system.mk_dir tree.remote top.identifier "season").0
        → NoNil (mkdir nothing_found top "season" tree).0)
requests-NoNil_example =
    requests-NoNil nothing_found (Answers.root_present (file_system-Answers stubs stubs-Faults)) top
      "season" tree
