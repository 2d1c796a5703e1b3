-- ===== src/Fuse/Directory.antt =====
-- filesystem/server/provider/fuse/filesystem/directory: the tree of nodes that one client's
-- directories make. A node is known by its index among the nodes of its kind. The loggers are
-- always made.
pub mod Handle
pub mod Services
pub mod Requests
pub mod Laws
pub mod Listing
pub mod Registered
pub mod Served
pub mod Tidy
pub mod Grows
pub mod Kept
pub mod Made
pub mod Pointers
use Prim.Native.String.{String}
use fuse_video_streamer.Base.{ℕ, Bool, List}
use fuse_video_streamer.Fuse.Registry.{NodeRef, Instances}
use fuse_video_streamer.Fuse.File.Node
use fuse_video_streamer.Fuse.Streamable.Node as Streamable
use fuse_video_streamer.Fuse.Directory.Handle

-- A node service: its registry and whether it is closed.
pub record Service : Type 0 where
  pub registry : String
  pub closed : Bool

pub record Directory : Type 0 where
  pub identifier : ℕ
  pub directory_node_service : Service
  pub streamable_node_service : Service
  pub file_node_service : Service
  pub handles : List Handle.Handle
  pub closed : Bool

-- What the services work on. `increment_id` counts the file handles, `directory_handle_id` those of
-- directories.
pub record Tree (R : Type 0) : Type 0 where
  pub remote : R
  pub instances : Instances
  pub directories : List Directory
  pub streamables : List Streamable.Node
  pub files : List Node.Node
  pub increment_id : ℕ
  pub directory_handle_id : ℕ
