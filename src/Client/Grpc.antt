-- ===== src/Client/Grpc.antt =====
-- filesystem/client/provider/grpc/internal/filesystem/main.go: the FileSystem over the stubs of
-- github.com/sushydev/stream_mount_api. A request's timeout is one of the errors of the stub.
pub mod Answers
pub mod Provider
use Prim.Native.String.{String}
use fuse_video_streamer.Base.{ℕ, ◌%◌, ◌^◌, Bool, Option, none, some, List, [], map}
use fuse_video_streamer.Go.{Error}
use fuse_video_streamer.Client.{Node, FileSystem}

-- An error of a stub, known by a number.
pub data Rpc (A : Type 0) : Type 0 where
  reply : A → Rpc A
  fault : ℕ → Rpc A

-- A node message, by what its getters return.
pub record ApiNode : Type 0 where
  pub id : ℕ
  pub name : String
  pub mode : ℕ
  pub streamable : Bool

-- The stubs of FileSystemServiceClient, by the requests' fields, and `FromResponseError`.
pub record Api (R : Type 0) : Type 0 where
  pub root : R → Rpc ApiNode × R
  pub read_dir_all : R → ℕ → Rpc (List ApiNode) × R
  pub lookup : R → ℕ → String → Rpc ApiNode × R
  pub remove : R → ℕ → String → Rpc (Unit {0}) × R
  pub rename : R → ℕ → String → ℕ → String → Rpc (Unit {0}) × R
  pub create : R → ℕ → String → ℕ → Rpc (Unit {0}) × R
  pub mkdir : R → ℕ → String → Rpc ApiNode × R
  pub link : R → ℕ → ℕ → String → Rpc (Unit {0}) × R
  pub read_link : R → ℕ → Rpc String × R
  pub get_file_info : R → ℕ → Rpc ℕ × R
  pub get_stream_url : R → ℕ → Rpc String × R
  pub read_file : R → ℕ → ℕ → ℕ → Rpc (List ℕ) × R
  pub write_file : R → ℕ → ℕ → List ℕ → Rpc ℕ × R
  pub from_response_error : Option ℕ → Error

-- `newNode` of a message; a FileMode is a uint32.
abbrev pub new_node : ApiNode → Node
new_node n = record { id = n.id; name = n.name; mode = n.mode % 2 ^ 32; streamable = n.streamable }

module _ {R : Type 0} (api : Api R) where
  -- `if err != nil { return nil, api.FromResponseError(err) }`, else the node of the response.
  unfoldable pub answer_node : Rpc ApiNode × R → (Option Node × Error) × R
  answer_node (reply n, r) = ((some (new_node n), none), r)
  answer_node (fault e, r) = ((none, api.from_response_error (some e)), r)

  -- The same where the result is a value, which has a zero.
  answer : {A : Type 0} → A → Rpc A × R → (A × Error) × R
  answer zero_value (reply a, r) = ((a, none), r)
  answer zero_value (fault e, r) = ((zero_value, api.from_response_error (some e)), r)

  -- `return api.FromResponseError(err)`, whether the stub failed or not.
  answer_error : Rpc (Unit {0}) × R → Error × R
  answer_error (reply u, r) = (api.from_response_error none, r)
  answer_error (fault e, r) = (api.from_response_error (some e), r)

  -- The name is not sent.
  unfoldable pub root : R → String → (Option Node × Error) × R
  unfolding answer_node
  root r name = answer_node (api.root r)

  answer_nodes : Rpc (List ApiNode) × R → (List Node × Error) × R
  answer_nodes (reply ns, r) = ((map new_node ns, none), r)
  answer_nodes (fault e, r) = (([], api.from_response_error (some e)), r)

  unfoldable pub read_dir_all : R → ℕ → (List Node × Error) × R
  unfolding answer_nodes
  read_dir_all r node_id = answer_nodes (api.read_dir_all r node_id)

  unfoldable pub lookup : R → ℕ → String → (Option Node × Error) × R
  unfolding answer_node
  lookup r parent_node_id name = answer_node (api.lookup r parent_node_id name)

  unfoldable pub remove : R → ℕ → String → Error × R
  unfolding answer_error
  remove r parent_node_id name = answer_error (api.remove r parent_node_id name)

  unfoldable pub rename : R → ℕ → String → ℕ → String → Error × R
  unfolding answer_error
  rename r old_parent old_name new_parent new_name =
      answer_error (api.rename r old_parent old_name new_parent new_name)

  unfoldable pub create : R → ℕ → String → ℕ → Error × R
  unfolding answer_error
  create r parent_node_id name mode =
      answer_error (api.create r parent_node_id name (mode % 2 ^ 32))

  unfoldable pub mk_dir : R → ℕ → String → (Option Node × Error) × R
  unfolding answer_node
  mk_dir r parent_node_id name = answer_node (api.mkdir r parent_node_id name)

  -- The stub takes the target first.
  unfoldable pub link : R → ℕ → String → ℕ → Error × R
  unfolding answer_error
  link r parent_node_id name target_node_id =
      answer_error (api.link r target_node_id parent_node_id name)

  unfoldable pub read_link : R → ℕ → (String × Error) × R
  unfolding answer
  read_link r node_id = answer "" (api.read_link r node_id)

  unfoldable pub get_file_info : R → ℕ → (ℕ × Error) × R
  unfolding answer
  get_file_info r node_id = answer 0 (api.get_file_info r node_id)

  unfoldable pub get_stream_url : R → ℕ → (String × Error) × R
  unfolding answer
  get_stream_url r node_id = answer "" (api.get_stream_url r node_id)

  unfoldable pub read_file : R → ℕ → ℕ → ℕ → (List ℕ × Error) × R
  unfolding answer
  read_file r node_id offset size = answer [] (api.read_file r node_id offset size)

  unfoldable pub write_file : R → ℕ → ℕ → List ℕ → (ℕ × Error) × R
  unfolding answer
  write_file r node_id offset bytes = answer 0 (api.write_file r node_id offset bytes)

  -- The FileSystem that `New` returns.
  abbrev pub file_system : FileSystem R
  file_system = record {
    root = root;
    read_dir_all = read_dir_all;
    lookup = lookup;
    remove = remove;
    rename = rename;
    create = create;
    mk_dir = mk_dir;
    link = link;
    read_link = read_link;
    read_file = read_file;
    write_file = write_file;
    get_file_info = get_file_info;
    get_stream_url = get_stream_url;
  }
