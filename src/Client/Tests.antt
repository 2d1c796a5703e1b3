-- ===== src/Client/Tests.antt =====
-- The theorems about the clients, at concrete inputs.
use fuse_video_streamer.Base.{ℕ, false, List, [], ◌∷◌, none, some, Option, if◌then◌else◌}
use Prim.Native.String.{String}
use text.Mathlib.Text.{◌==◌ as str_eq}
use fuse_video_streamer.Go.{Error, external, Outcome, ok, err}
use fuse_video_streamer.Config.{FileSystemProvider, Config}
use fuse_video_streamer.Client.Repository.{new_repository}
use fuse_video_streamer.Client.Repository.Connecting.{Connected, new_repository-Connected}
use fuse_video_streamer.Client.{Client, FileSystem, mode_dir}
use fuse_video_streamer.Client.Grpc.{Api, ApiNode, reply, fault, file_system}
use fuse_video_streamer.Client.Grpc.Answers.{Faults, Answers, file_system-Answers}

-- A remote file system without files, whose state counts the calls that change it, and which gives
-- one address to every node.
abbrev pub empty_files : FileSystem ℕ
empty_files = record {
  root = λ r name. ((none, none), r);
  read_dir_all = λ r id. (([], none), r);
  lookup = λ r id name. ((none, none), r);
  remove = λ r id name. (none, ℕ.suc r);
  rename = λ r id name to_id to_name. (none, ℕ.suc r);
  create = λ r id name mode. (none, ℕ.suc r);
  mk_dir = λ r id name. ((none, none), ℕ.suc r);
  link = λ r id name to_id. (none, ℕ.suc r);
  read_link = λ r id. (("", none), r);
  read_file = λ r id offset size. (([], none), r);
  write_file = λ r id offset bytes. ((0, none), ℕ.suc r);
  get_file_info = λ r id. ((5, none), r);
  get_stream_url = λ r id. (("http://host/1", none), r);
}

abbrev pub media : Client ℕ
media = record { name = "media"; file_system = empty_files }

-- Stubs that know one directory, and answer what they cannot do with the error 5.
abbrev shows : ApiNode
shows = record { id = 1; name = "shows"; mode = mode_dir; streamable = false }

abbrev response_error : Option ℕ → Error
response_error none = none
response_error (some e) = some (external e)

abbrev pub stubs : Api ℕ
stubs = record {
  root = λ r. (reply shows, r);
  read_dir_all = λ r id. (reply (shows ∷ []), r);
  lookup = λ r id name. (fault 5, r);
  remove = λ r id name. (fault 5, r);
  rename = λ r id name to_id to_name. (fault 5, r);
  create = λ r id name mode. (fault 5, r);
  mkdir = λ r id name. (reply shows, r);
  link = λ r id to_id name. (fault 5, r);
  read_link = λ r id. (fault 5, r);
  get_file_info = λ r id. (reply 5, r);
  get_stream_url = λ r id. (reply "http://host/1", r);
  read_file = λ r id offset size. (fault 5, r);
  write_file = λ r id offset bytes. (fault 5, r);
  from_response_error = response_error;
}

pub stubs-Faults : Faults stubs
stubs-Faults e = λ q. cc

file_system-Answers_example : Answers (file_system stubs)
file_system-Answers_example = file_system-Answers stubs stubs-Faults

-- Only one target can be dialled.
abbrev pub dial : String → Outcome (Api ℕ)
dial target = if str_eq target "host:1" then ok stubs else err (external 9)

abbrev pub with_servers : List FileSystemProvider → Config
with_servers servers = record {
  mount_point = "/mnt";
  volume_name = "films";
  file_servers = servers;
}

abbrev pub here : FileSystemProvider
here = record { name = "media"; target = "host:1" }

abbrev away : FileSystemProvider
away = record { name = "backup"; target = "host:2" }

new_repository-Connected_example :
    Connected dial (here ∷ away ∷ []) (new_repository dial (ok (with_servers (here ∷ away ∷ []))))
new_repository-Connected_example = new_repository-Connected dial (with_servers (here ∷ away ∷ []))

abbrev connected : Client ℕ
connected = record { name = "media"; file_system = file_system stubs }
