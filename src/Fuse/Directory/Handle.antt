-- ===== src/Fuse/Directory/Handle.antt =====
-- filesystem/server/provider/fuse/filesystem/directory/handle/main.go.
use Prim.Native.String.{String}
use fuse_video_streamer.Base.{
  ℕ, ◌+◌, ◌%◌, ◌^◌, Bool, true, false, none, some, List, [], ◌∷◌, ◌==◌, if◌then◌else◌,
}
use fuse_video_streamer.Go.{enoent, Error, Outcome, ok, err}
use fuse_video_streamer.Client.{Client, Node, mode_dir, mode_symlink}

pub record Handle : Type 0 where
  pub id : ℕ
  pub directory_identifier : ℕ
  pub closed : Bool

-- `handle.New`, with the counter `incrementId`, a uint64.
unfoldable pub new_handle : ℕ → ℕ → Handle × ℕ
new_handle increment_id directory_identifier =
    let id = (increment_id + 1) % 2 ^ 64 in
    (record { id = id; directory_identifier = directory_identifier; closed = false }, id)

-- `fuse.DT_Link`, `fuse.DT_File` and `fuse.DT_Dir`.
pub data EntryKind : Type 0 where
  dt_link dt_file dt_dir : EntryKind

-- `fuse.Dirent`, of which the name and the type are set.
pub record Entry : Type 0 where
  pub name : String
  pub kind : EntryKind

-- The loop over the nodes. One with another mode is only logged.
unfoldable pub entries_of : List Node → List Entry
entries_of [] = []
entries_of (n ∷ ns) =
    let rest = entries_of ns in
    if n.mode == mode_symlink
    then (record { name = n.name; kind = dt_link }) ∷ rest
    else if n.mode == 0
    then (record { name = n.name; kind = dt_file }) ∷ rest
    else if n.mode == mode_dir
    then (record { name = n.name; kind = dt_dir }) ∷ rest
    else rest

-- The error ENOENT counts as an empty answer, or as what came with it.
abbrev pub listed : List Node × Error → Outcome (List Entry)
listed (ns, none) = ok (entries_of ns)
listed (ns, some enoent) = ok (entries_of ns)
listed (ns, some e) = err e

unfoldable pub read_dir_all : {R : Type 0} → Client R → R → Handle → Outcome (List Entry) × R
read_dir_all client r h =
    if h.closed
    then (err enoent, r)
    else let (answer, r') = client.file_system.read_dir_all r h.directory_identifier in
      (listed answer, r')

-- `Close`, which always returns nil.
unfoldable pub close : Handle → Handle
close h = if h.closed then h else record h { closed = true }
