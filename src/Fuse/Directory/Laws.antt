-- ===== src/Fuse/Directory/Laws.antt =====
-- Theorems about a closed directory of
-- filesystem/server/provider/fuse/filesystem/directory/node/main.go, and about a remote file system that
-- fails.
use Prim.Native.String.{String}
use fuse_video_streamer.Base.{ℕ, ◌≡◌, refl, true, false, Option, none, some, arith}
use fuse_video_streamer.Go.{GoError, enoent, Outcome, ok, err, panics, explicit}
use fuse_video_streamer.Client.{Client, Node, mode_dir}
use fuse_video_streamer.Fuse.Registry.{NodeRef, get_instance}
use fuse_video_streamer.Fuse.Directory.{Service, Directory, Tree}
use fuse_video_streamer.Fuse.Directory.Services.{bind_tree, new_service, new_directory}
use fuse_video_streamer.Fuse.Directory.Requests.{
  attr, open_directory, close, node_of, lookup, remove, rename, create, mkdir, link, made_node,
}

module _ {R : Type 0} (client : Client R) where
  -- Every request is refused with ENOENT, changes nothing, and asks nothing of the remote side.
  abbrev pub Refuses : Directory → Type 0
  Refuses d =
      (attr d ≡ err enoent)
      × ((id : ℕ) → open_directory id d ≡ (err enoent, d, id))
      × ((name : String) (t : Tree R) → lookup client d name t ≡ (err enoent, t))
      × ((name : String) (t : Tree R) → remove client d name t ≡ (some enoent, t))
      × ((old new : String) (to : Option ℕ) (t : Tree R)
          → rename client d old to new t ≡ (some enoent, t))
      × ((name : String) (mode : ℕ) (t : Tree R) → create client d name mode t ≡ (err enoent, t))
      × ((name : String) (t : Tree R) → mkdir client d name t ≡ (err enoent, t))
      × ((name : String) (old : Option ℕ) (t : Tree R) → link client d name old t ≡ (err enoent, t))

  rename-closed :
      (d : Directory) (old new : String) (to : Option ℕ) (t : Tree R)
      → d.closed ≡ true
      → rename client d old to new t ≡ (some enoent, t)
  unfolding rename
  rename-closed d old new none t c = ground arith
  rename-closed d old new (some to) t c = ground arith

  link-closed :
      (d : Directory) (name : String) (old : Option ℕ) (t : Tree R)
      → d.closed ≡ true
      → link client d name old t ≡ (err enoent, t)
  unfolding link
  link-closed d name none t c = ground arith
  link-closed d name (some old) t c = ground arith

  closed-Refuses : (d : Directory) → d.closed ≡ true → Refuses d
  unfolding attr open_directory lookup remove create mkdir
  closed-Refuses d c = (
    ground arith,
    (λ id. ground arith),
    (λ name t. ground arith),
    (λ name t. ground arith),
    (λ old new to t. rename-closed d old new to t c),
    (λ name mode t. ground arith),
    (λ name t. ground arith),
    (λ name old t. link-closed d name old t c),
  )

  -- Once Close was called on a directory, Attr, Open, Lookup, Remove, Rename, Create, Mkdir and
  -- Link are refused with ENOENT, change nothing, and ask nothing of the remote file system.
  pub close-Refuses : (d : Directory) → Refuses (close d)
  unfolding close
  close-Refuses d = closed-Refuses (close d) (ground arith)

  service-panics :
      (t : Tree R) (root : Option Node) (e : GoError)
      → (client.file_system.root t.remote client.name).0 ≡ (root, some e)
      → (new_service client t).0 ≡ panics explicit
  unfolding new_service get_instance
  service-panics t root e failed = rw failed refl

  bind_tree-panics :
      {A B : Type 0} (x : Outcome A × Tree R) (f : A → Tree R → Outcome B × Tree R)
      → x.0 ≡ panics explicit
      → (bind_tree client x f).0 ≡ panics explicit
  bind_tree-panics (ok a, t) f e = absurd (cc)
  bind_tree-panics (err x, t) f e = absurd (cc)
  bind_tree-panics (panics p, t) f e = ground arith

  new_directory-panics :
      (service : Service) (identifier : ℕ) (t : Tree R) (root : Option Node) (e : GoError)
      → service.closed ≡ false
      → (client.file_system.root t.remote client.name).0 ≡ (root, some e)
      → (new_directory client service identifier t).0 ≡ panics explicit
  unfolding new_directory
  new_directory-panics service identifier t root e s failed =
      simp s (bind_tree-panics (new_service client t) _ (service-panics t root e failed))

  made_node-panics :
      (x : Outcome NodeRef × Tree R)
      → x.0 ≡ panics explicit
      → (made_node client x).0 ≡ panics explicit
  made_node-panics (ok a, t) e = absurd (cc)
  made_node-panics (err x, t) e = absurd (cc)
  made_node-panics (panics p, t) e = ground arith

  node_of-directory :
      (d : Directory) (n : Node) (t : Tree R)
      → n.mode ≡ mode_dir
      → node_of client d n t
        ≡ made_node client (new_directory client d.directory_node_service n.id t)
  unfolding node_of
  node_of-directory d n t mode = ground arith

  -- On an open directory whose services are open, a Lookup that is answered with a directory
  -- panics if the remote file system then fails to give its root.
  pub lookup_panics :
      (d : Directory) (name : String) (t : Tree R) (n : Node) (r : R) (root : Option Node)
      (e : GoError)
      → d.closed ≡ false
      → d.directory_node_service.closed ≡ false
      → client.file_system.lookup t.remote d.identifier name ≡ ((some n, none), r)
      → n.mode ≡ mode_dir
      → (client.file_system.root r client.name).0 ≡ (root, some e)
      → (lookup client d name t).0 ≡ panics explicit
  unfolding lookup
  lookup_panics d name t n r root e c s answer mode failed =
      simp (c, answer, node_of-directory d n (record t { remote = r }) mode)
        (made_node-panics _ (
          new_directory-panics d.directory_node_service n.id (record t { remote = r }) root e s
            failed))
