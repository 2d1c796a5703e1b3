-- ===== src/Client/Grpc/Answers.antt =====
-- Theorems about the nodes that filesystem/client/provider/grpc/internal/filesystem/main.go returns.
use Prim.Native.String.{String}
use fuse_video_streamer.Base.{ℕ, ◌≢◌, refl, Option, none, some}
use fuse_video_streamer.Go.{Error}
use fuse_video_streamer.Client.{Node, FileSystem}
use fuse_video_streamer.Client.Grpc.{
  Api, ApiNode, Rpc, reply, fault, answer_node, root, lookup, mk_dir, file_system,
}

-- `FromResponseError` turns an error into an error.
abbrev pub Faults : {R : Type 0} → Api R → Type 0
Faults api = (e : ℕ) → api.from_response_error (some e) ≢ none

-- There is no nil node beside a nil error.
abbrev pub Present : Option Node × Error → Type 0
Present (none, none) = ⊥
Present (none, some e) = Unit {0}
Present (some n, e) = Unit {0}

pub record Answers {R : Type 0} (fs : FileSystem R) : Type 0 where
  pub root_present : (r : R) (name : String) → Present (fs.root r name).0
  pub lookup_present : (r : R) (id : ℕ) (name : String) → Present (fs.lookup r id name).0
  pub mk_dir_present : (r : R) (id : ℕ) (name : String) → Present (fs.mk_dir r id name).0

module _ {R : Type 0} (api : Api R) where
  nil_beside : (e : Error) → e ≢ none → Present (none, e)
  nil_beside none h = h refl
  nil_beside (some e) h = tt

  answer_node-Present : Faults api → (x : Rpc ApiNode × R) → Present (answer_node api x).0
  unfolding answer_node
  answer_node-Present h (reply n, r) = tt
  answer_node-Present h (fault e, r) = nil_beside (api.from_response_error (some e)) (h e)

  -- If FromResponseError turns errors into errors, then Root, Lookup and MkDir of the grpc file
  -- system never return a nil node beside a nil error.
  pub file_system-Answers : Faults api → Answers (file_system api)
  unfolding root lookup mk_dir
  file_system-Answers h = record {
    root_present = λ r name. answer_node-Present h (api.root r);
    lookup_present = λ r id name. answer_node-Present h (api.lookup r id name);
    mk_dir_present = λ r id name. answer_node-Present h (api.mkdir r id name);
  }
