-- ===== src/Fuse/Interfaces.antt =====
-- filesystem/server/provider/fuse/interfaces: generic.go, node.go, handle.go and filesystem.go. An
-- interface is the list of the names of its methods. Those that come from
-- github.com/anacrolix/fuse/fs are a parameter.
pub mod Assertions
use Prim.Native.String.{String}
use text.Mathlib.Text.{◌==◌ as str_eq}
use fuse_video_streamer.Base.{Bool, true, false, ◌&&◌, List, [], ◌∷◌, ◌++◌, if◌then◌else◌}

abbrev pub Methods : Type 0
Methods = List String

-- The interfaces of the package fs that are embedded.
pub record Fs : Type 0 where
  pub node : Methods
  pub node_opener : Methods
  pub node_request_lookuper : Methods
  pub node_remover : Methods
  pub node_renamer : Methods
  pub node_creater : Methods
  pub node_mkdirer : Methods
  pub node_linker : Methods
  pub node_fsyncer : Methods
  pub handle : Methods
  pub handle_read_dir_aller : Methods
  pub handle_read_aller : Methods
  pub handle_reader : Methods
  pub handle_writer : Methods
  pub handle_releaser : Methods
  pub handle_flusher : Methods
  pub file_system : Methods

abbrev pub use_closable : Methods
use_closable = "Close" ∷ "IsClosed" ∷ []

-- The factories and the services of all kinds.
abbrev pub service_factory : Methods
service_factory = "New" ∷ []

abbrev pub service : Methods
service = use_closable ++ "New" ∷ []

module _ (fs : Fs) where
  abbrev pub node : Methods
  node = use_closable ++ fs.node ++ "GetIdentifier" ∷ []

  abbrev pub root_node : Methods
  root_node = use_closable ++ node ++ fs.node_opener ++ fs.node_request_lookuper

  abbrev pub directory_node : Methods
  directory_node =
      node ++ fs.node_opener ++ fs.node_request_lookuper ++ fs.node_remover ++ fs.node_renamer
      ++ fs.node_creater ++ fs.node_mkdirer ++ fs.node_linker

  abbrev pub streamable_node : Methods
  streamable_node = node ++ fs.node_opener ++ "GetSize" ∷ "GetClient" ∷ []

  abbrev pub file_node : Methods
  file_node = node ++ fs.node_opener ++ "GetSize" ∷ "GetClient" ∷ []

  abbrev pub root_handle : Methods
  root_handle = use_closable ++ fs.handle ++ fs.handle_read_dir_aller

  abbrev pub directory_handle : Methods
  directory_handle = use_closable ++ fs.handle ++ fs.handle_read_dir_aller ++ "GetIdentifier" ∷ []

  abbrev pub streamable_handle : Methods
  streamable_handle =
      use_closable ++ fs.handle ++ fs.handle_reader ++ fs.handle_releaser ++ "GetIdentifier" ∷ []

  abbrev pub file_handle : Methods
  file_handle =
      use_closable
      ++ fs.handle
      ++ fs.handle_read_aller
      ++ fs.handle_reader
      ++ fs.handle_writer
      ++ fs.handle_releaser
      ++ fs.handle_flusher
      ++ fs.node_fsyncer
      ++ "GetIdentifier" ∷ []

  abbrev pub fuse_file_system : Methods
  fuse_file_system = use_closable ++ fs.file_system

-- The types of which an `fs.Node` may be, and their methods.
pub data NodeType : Type 0 where
  root_type directory_type streamable_type file_type symlink_type : NodeType

abbrev pub root_methods : Methods
root_methods =
    "GetIdentifier" ∷ "Attr" ∷ "Open" ∷ "Lookup" ∷ "ReadDirAll" ∷ "Close" ∷ "IsClosed" ∷ []

abbrev pub directory_methods : Methods
directory_methods =
    "GetIdentifier" ∷ "Attr" ∷ "Open" ∷ "Lookup" ∷ "Remove" ∷ "Rename" ∷ "Create" ∷ "Mkdir" ∷ "Link"
    ∷ "Close" ∷ "IsClosed" ∷ []

abbrev pub streamable_methods : Methods
streamable_methods =
    "GetIdentifier" ∷ "GetSize" ∷ "GetClient" ∷ "Attr" ∷ "Open" ∷ "Close" ∷ "IsClosed" ∷ []

abbrev pub file_methods : Methods
file_methods =
    "GetIdentifier" ∷ "GetSize" ∷ "GetClient" ∷ "Attr" ∷ "Open" ∷ "Close" ∷ "IsClosed" ∷ []

abbrev pub symlink_methods : Methods
symlink_methods = "Attr" ∷ "Readlink" ∷ []

unfoldable pub methods_of : NodeType → Methods
methods_of root_type = root_methods
methods_of directory_type = directory_methods
methods_of streamable_type = streamable_methods
methods_of file_type = file_methods
methods_of symlink_type = symlink_methods

abbrev pub has_method : Methods → String → Bool
has_method [] m = false
has_method (x ∷ xs) m = if str_eq x m then true else has_method xs m

-- `value.(interface)`: the type has all methods of the interface.
unfoldable pub asserts : Methods → Methods → Bool
asserts type_methods [] = true
asserts type_methods (m ∷ ms) = has_method type_methods m && asserts type_methods ms
