-- ===== src/Client.antt =====
-- filesystem/client: the remote file systems that the nodes are made from. `R` is the state of the
-- remote side; every call may change it.
pub mod Grpc
pub mod Repository
pub mod Tests
use Prim.Native.String.{String}
use fuse_video_streamer.Base.{ℕ, Bool, Option, List}
use fuse_video_streamer.Go.{Error}

-- The interface Node, by what its getters return. A mode is a uint32.
pub record Node : Type 0 where
  pub id : ℕ
  pub name : String
  pub mode : ℕ
  pub streamable : Bool

-- The modes of io/fs that the program tells apart.
abbrev pub mode_dir : ℕ
mode_dir = 0x8000_0000

abbrev pub mode_symlink : ℕ
mode_symlink = 0x0800_0000

-- The interface FileSystem. An interface value may be nil, also beside a nil error.
pub record FileSystem (R : Type 0) : Type 0 where
  pub root : R → String → (Option Node × Error) × R
  pub read_dir_all : R → ℕ → (List Node × Error) × R
  pub lookup : R → ℕ → String → (Option Node × Error) × R
  pub remove : R → ℕ → String → Error × R
  pub rename : R → ℕ → String → ℕ → String → Error × R
  pub create : R → ℕ → String → ℕ → Error × R
  pub mk_dir : R → ℕ → String → (Option Node × Error) × R
  pub link : R → ℕ → String → ℕ → Error × R
  pub read_link : R → ℕ → (String × Error) × R
  pub read_file : R → ℕ → ℕ → ℕ → (List ℕ × Error) × R
  pub write_file : R → ℕ → ℕ → List ℕ → (ℕ × Error) × R
  pub get_file_info : R → ℕ → (ℕ × Error) × R
  pub get_stream_url : R → ℕ → (String × Error) × R

-- The interface Client.
pub record Client (R : Type 0) : Type 0 where
  pub name : String
  pub file_system : FileSystem R
