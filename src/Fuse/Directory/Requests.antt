-- ===== src/Fuse/Directory/Requests.antt =====
-- The requests of filesystem/server/provider/fuse/filesystem/directory/node/main.go. A directory is
-- passed as it is; the tree is what a request changes.
use Prim.Native.String.{String}
use fuse_video_streamer.Base.{
  ℕ, ◌%◌, ◌^◌, true, Option, none, some, [], ◌∷◌, ◌++◌, length, get_elem?, set, ◌==◌, map,
  if◌then◌else◌,
}
use fuse_video_streamer.Go.{
  enoent, eagain, enosys, Error, Outcome, ok, err, panics, nil_dereference,
}
use fuse_video_streamer.Client.{Client, Node, mode_dir, mode_symlink}
use fuse_video_streamer.Fuse.Registry.{NodeRef, file}
use fuse_video_streamer.Fuse.File.Node.{open_node}
use fuse_video_streamer.Fuse.File.Node as File
use fuse_video_streamer.Fuse.Directory.{Directory, Tree}
use fuse_video_streamer.Fuse.Directory.Handle.{new_handle}
use fuse_video_streamer.Fuse.Directory.Handle
use fuse_video_streamer.Fuse.Directory.Services.{bind_tree, new_directory, new_streamable, new_file}

-- An `fs.Node`: one that a service made, or a symbolic link with its identifier.
pub data FsNode : Type 0 where
  made : NodeRef → FsNode
  symlink : ℕ → FsNode

-- The mode.
unfoldable pub attr : Directory → Outcome ℕ
attr d = if d.closed then err enoent else ok mode_dir

-- `Open`: the handle's index, the directory, and the counter of the handles. The handle service is
-- never closed.
unfoldable pub open_directory : ℕ → Directory → Outcome ℕ × Directory × ℕ
open_directory increment_id d =
    if d.closed
    then (err enoent, d, increment_id)
    else let (h, increment_id') = new_handle increment_id d.identifier in
      (ok (length d.handles), record d { handles = d.handles ++ h ∷ [] }, increment_id')

-- `Close`, which always returns nil.
unfoldable pub close : Directory → Directory
close d = if d.closed then d else record d { handles = map Handle.close d.handles; closed = true }

module _ {R : Type 0} (client : Client R) where
  abbrev pub made_node : Outcome NodeRef × Tree R → Outcome FsNode × Tree R
  made_node (ok n, t) = (ok (made n), t)
  made_node (err e, t) = (err e, t)
  made_node (panics p, t) = (panics p, t)

  abbrev pub made_file : Outcome ℕ × Tree R → Outcome FsNode × Tree R
  made_file (ok i, t) = (ok (made (file i)), t)
  made_file (err e, t) = (err e, t)
  made_file (panics p, t) = (panics p, t)

  -- `switch foundNode.GetMode()`
  unfoldable pub node_of : Directory → Node → Tree R → Outcome FsNode × Tree R
  node_of d n t =
      if n.mode == mode_dir
      then made_node (new_directory client d.directory_node_service n.id t)
      else if n.mode == 0
      then (if n.streamable
          then made_node (new_streamable client d.streamable_node_service n.id t)
          else made_file (new_file client d.file_node_service n.id t))
      else if n.mode == mode_symlink
      then (ok (symlink n.id), t)
      else (err enoent, t)

  abbrev pub found : Directory → Option Node × Error → Tree R → Outcome FsNode × Tree R
  found d (n, some enoent) t = (err enoent, t)
  found d (n, some e) t = (err eagain, t)
  found d (none, none) t = (err enoent, t)
  found d (some n, none) t = node_of d n t

  unfoldable pub lookup : Directory → String → Tree R → Outcome FsNode × Tree R
  lookup d name t =
      if d.closed
      then (err enoent, t)
      else let (answer, r) = client.file_system.lookup t.remote d.identifier name in
        found d answer (record t { remote = r })

  unfoldable pub remove : Directory → String → Tree R → Error × Tree R
  remove d name t =
      if d.closed
      then (some enoent, t)
      else let (e, r) = client.file_system.remove t.remote d.identifier name in
        (e, record t { remote = r })

  -- `newDir` is the directory with that identifier, or no directory.
  unfoldable pub rename : Directory → String → Option ℕ → String → Tree R → Error × Tree R
  rename d old_name none new_name t = if d.closed then (some enoent, t) else (some enosys, t)
  rename d old_name (some new_directory_id) new_name t =
      if d.closed
      then (some enoent, t)
      else let (e, r) =
          client.file_system.rename t.remote d.identifier old_name new_directory_id new_name in
        (e, record t { remote = r })

  -- What `Create` returns: the index of the file node, and its handle.
  abbrev pub opened :
      ℕ → Tree R → Outcome (Option ℕ) × File.Node × ℕ → Outcome (ℕ × Option ℕ) × Tree R
  opened i t (ok h, n, id) = (ok (i, h), record t { files = set t.files i n; increment_id = id })
  opened i t (err e, n, id) = (err e, record t { files = set t.files i n; increment_id = id })
  opened i t (panics p, n, id) = (panics p, record t { files = set t.files i n; increment_id = id })

  -- `fileNode.Open` on the file node with the index, which was just made.
  unfoldable pub open_file : ℕ → Tree R → Outcome (ℕ × Option ℕ) × Tree R
  open_file i t = elim (get_elem? t.files i) [
    | none ↦ (panics nil_dereference, t)
    | some n ↦ opened i t (open_node t.increment_id n)
  ]

  abbrev pub created : Directory → Option Node × Error → Tree R → Outcome (ℕ × Option ℕ) × Tree R
  created d (n, some e) t = (err e, t)
  created d (none, none) t = (panics nil_dereference, t)
  created d (some n, none) t =
      bind_tree client (new_file client d.file_node_service n.id t) open_file

  abbrev pub look_up_created : Directory → String → Error → Tree R → Outcome (ℕ × Option ℕ) × Tree R
  look_up_created d name (some e) t = (err e, t)
  look_up_created d name none t =
      let (answer, r) = client.file_system.lookup t.remote d.identifier name in
      created d answer (record t { remote = r })

  -- A mode is a uint32.
  unfoldable pub create : Directory → String → ℕ → Tree R → Outcome (ℕ × Option ℕ) × Tree R
  create d name mode t =
      if d.closed
      then (err enoent, t)
      else let (e, r) = client.file_system.create t.remote d.identifier name (mode % 2 ^ 32) in
        look_up_created d name e (record t { remote = r })

  abbrev pub made_directory : Directory → Option Node × Error → Tree R → Outcome NodeRef × Tree R
  made_directory d (n, some e) t = (err e, t)
  made_directory d (none, none) t = (panics nil_dereference, t)
  made_directory d (some n, none) t = new_directory client d.directory_node_service n.id t

  unfoldable pub mkdir : Directory → String → Tree R → Outcome NodeRef × Tree R
  mkdir d name t =
      if d.closed
      then (err enoent, t)
      else let (answer, r) = client.file_system.mk_dir t.remote d.identifier name in
        made_directory d answer (record t { remote = r })

  -- `oldNode` is a node with that identifier that meets the interface StreamableNode, as a streamable
  -- node or a file node does (Fuse/Interfaces), or it is another node. What is returned is the
  -- identifier of `oldFile`.
  abbrev pub linked : ℕ → Error → Tree R → Outcome ℕ × Tree R
  linked old (some e) t = (err e, t)
  linked old none t = (ok old, t)

  unfoldable pub link : Directory → String → Option ℕ → Tree R → Outcome ℕ × Tree R
  link d new_name none t = if d.closed then (err enoent, t) else (err enosys, t)
  link d new_name (some old) t =
      if d.closed
      then (err enoent, t)
      else let (e, r) = client.file_system.link t.remote d.identifier new_name old in
        linked old e (record t { remote = r })
