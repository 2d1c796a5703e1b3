-- ===== src/Fuse/Interfaces/Assertions.antt =====
-- Which nodes meet the interfaces of filesystem/server/provider/fuse/interfaces/node.go.
use fuse_video_streamer.Base.{◌≡◌, refl, Bool, true, false, [], ◌∷◌}
use fuse_video_streamer.Fuse.Interfaces.{
  Fs, root_node, directory_node, streamable_node, file_node, NodeType, root_type, directory_type,
  streamable_type, file_type, symlink_type, methods_of, asserts,
}

-- The documented methods of the interfaces of the package fs that nodes embed.
abbrev pub Documented : Fs → Type 0
Documented fs =
    (fs.node ≡ "Attr" ∷ [])
    × (fs.node_opener ≡ "Open" ∷ [])
    × (fs.node_request_lookuper ≡ "Lookup" ∷ [])
    × (fs.node_remover ≡ "Remove" ∷ [])
    × (fs.node_renamer ≡ "Rename" ∷ [])
    × (fs.node_creater ≡ "Create" ∷ [])
    × (fs.node_mkdirer ≡ "Mkdir" ∷ [])
    × (fs.node_linker ≡ "Link" ∷ [])

abbrev pub is_video_or_file : NodeType → Bool
is_video_or_file streamable_type = true
is_video_or_file file_type = true
is_video_or_file _ = false

abbrev pub is_directory : NodeType → Bool
is_directory directory_type = true
is_directory _ = false

abbrev pub looks_up : NodeType → Bool
looks_up root_type = true
looks_up directory_type = true
looks_up _ = false

-- With the documented methods of the interfaces of the package fs, the assertion to
-- StreamableNode, which Link makes, and the one to FileNode hold of streamable nodes and of file
-- nodes alike and of no other node; the assertion to DirectoryNode holds of directories only, and
-- the one to RootNode of the root and of directories.
pub asserts-methods_of :
    (fs : Fs) (t : NodeType)
    → Documented fs
    → (asserts (methods_of t) (streamable_node fs) ≡ is_video_or_file t)
      × (asserts (methods_of t) (file_node fs) ≡ is_video_or_file t)
      × (asserts (methods_of t) (directory_node fs) ≡ is_directory t)
      × (asserts (methods_of t) (root_node fs) ≡ looks_up t)
unfolding asserts methods_of
asserts-methods_of fs root_type (n, o, l, r, m, c, k, i) =
    simp (n, o, l, r, m, c, k, i) (refl, refl, refl, refl)
asserts-methods_of fs directory_type (n, o, l, r, m, c, k, i) =
    simp (n, o, l, r, m, c, k, i) (refl, refl, refl, refl)
asserts-methods_of fs streamable_type (n, o, l, r, m, c, k, i) =
    simp (n, o, l, r, m, c, k, i) (refl, refl, refl, refl)
asserts-methods_of fs file_type (n, o, l, r, m, c, k, i) =
    simp (n, o, l, r, m, c, k, i) (refl, refl, refl, refl)
asserts-methods_of fs symlink_type documented = (refl, refl, refl, refl)
