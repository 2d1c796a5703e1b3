-- ===== src/Fuse/Root.antt =====
-- filesystem/server/provider/fuse/filesystem/root/node/main.go: the directory of the clients. All
-- clients work on one tree, whose `remote` is the state of all remote file systems.
pub mod Clients
pub mod Made
use Prim.Native.String.{String}
use fuse_video_streamer.Base.{
  ℕ, Bool, true, false, Option, none, some, List, [], ◌∷◌, if◌then◌else◌,
}
use fuse_video_streamer.Go.{enoent, Error, Outcome, ok, err, panics, nil_dereference}
use fuse_video_streamer.Client.{Client, Node, mode_dir}
use fuse_video_streamer.Client.Repository.{ClientRepository, get_client_by_name, get_clients}
use fuse_video_streamer.Fuse.Registry.{NodeRef}
use fuse_video_streamer.Fuse.Directory.{Tree}
use fuse_video_streamer.Fuse.Directory.Handle.{Entry, dt_dir}
use fuse_video_streamer.Fuse.Directory.Services.{bind_tree, new_service, new_directory}

-- The struct. The pointer to the directory node service is nil once the node is closed.
pub record Root (R : Type 0) : Type 0 where
  pub clients : ClientRepository R
  pub has_service : Bool
  pub closed : Bool

module _ {R : Type 0} where
  unfoldable pub attr : Root R → Outcome ℕ
  attr root = if root.closed then err enoent else ok mode_dir

  -- What follows `fileSystem.Root(client.GetName())`.
  abbrev pub top_of : Client R → Option Node × Error → Tree R → Outcome NodeRef × Tree R
  top_of client (n, some e) t = (err e, t)
  top_of client (n, none) t = bind_tree client (new_service client t) (λ service t'. elim n [
    | none ↦ (panics nil_dereference, t')
    | some top ↦ new_directory client service top.id t'
  ])

  abbrev pub top_of_client : Outcome (Client R) → Tree R → Outcome NodeRef × Tree R
  top_of_client (err e) t = (err e, t)
  top_of_client (panics p) t = (panics p, t)
  top_of_client (ok client) t =
      let (answer, r) = client.file_system.root t.remote client.name in
      top_of client answer (record t { remote = r })

  unfoldable pub lookup : Root R → String → Tree R → Outcome NodeRef × Tree R
  lookup root name t =
      if root.closed
      then (err enoent, t)
      else top_of_client (get_client_by_name root.clients name) t

  abbrev pub entries_of : List (Client R) → List Entry
  entries_of [] = []
  entries_of (c ∷ cs) = (record { name = c.name; kind = dt_dir }) ∷ entries_of cs

  -- A closed root lists nothing, without an error.
  unfoldable pub read_dir_all : Root R → List Entry
  read_dir_all root = if root.closed then [] else entries_of (get_clients root.clients)

  unfoldable pub close : Root R → Root R
  close root = if root.closed then root else record root { has_service = false; closed = true }
