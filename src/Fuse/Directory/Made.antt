-- ===== src/Fuse/Directory/Made.antt =====
-- Theorems about the requests of filesystem/server/provider/fuse/filesystem/directory/node/main.go that
-- make nodes, and the registries.
use Prim.Native.String.{String}
use mathlib.Core.Path.{subst}
use fuse_video_streamer.Base.{
  ℕ, ◌≡◌, ◌%◌, ◌^◌, true, refl, sym, inl, inr, Option, none, some, length, length-set, set,
  get_elem?, Bool-cases, Option-cases, ◌==◌, Each, set-Each, Lasts-refl, Lasts-set,
}
use fuse_video_streamer.Go.{
  GoError, Error, Outcome, ok, err, panics, enoent, eagain, enosys, eof, context_canceled, failure,
  wrapped, external,
}
use fuse_video_streamer.Client.{Client, Node, mode_dir, mode_symlink}
use fuse_video_streamer.Fuse.Registry.{NodeRef}
use fuse_video_streamer.Fuse.File.Node.{open_node}
use fuse_video_streamer.Fuse.File.Node as File
use fuse_video_streamer.Fuse.File.Node.Closing.{IsWell, open_node-IsWell, open_node-keeps_closed}
use fuse_video_streamer.Fuse.Directory.{Directory, Tree}
use fuse_video_streamer.Fuse.Directory.Services.{bind_tree}
use fuse_video_streamer.Fuse.Directory.Requests.{
  made_node, made_file, node_of, lookup, found, made_directory, mkdir, opened, open_file, created,
  look_up_created, create,
}
use fuse_video_streamer.Fuse.Directory.Registered.{Extends-refl}
use fuse_video_streamer.Fuse.Directory.Kept.{
  Keeps, Makes, Makes-Keeps, with_remote-Grows, new_directory-Makes, new_streamable-Makes,
  new_file-Makes,
}
use fuse_video_streamer.Fuse.Directory.Served.{Served, Kept, IsKept}
use fuse_video_streamer.Fuse.Directory.Grows.{
  Grows, Grows-refl, Grows-trans, is_closed_directory, is_closed_streamable, is_closed_file,
}

module _ {R : Type 0} (client : Client R) where
  made_node-Makes :
      (t : Tree R) (x : Outcome NodeRef × Tree R)
      → Makes client t x
      → Makes client t (made_node client x)
  made_node-Makes t (ok a, t') g = g
  made_node-Makes t (err e, t') g = g
  made_node-Makes t (panics p, t') g = g

  made_file-Makes :
      (t : Tree R) (x : Outcome ℕ × Tree R) → Makes client t x → Makes client t (made_file client x)
  made_file-Makes t (ok a, t') g = g
  made_file-Makes t (err e, t') g = g
  made_file-Makes t (panics p, t') g = g

  node_of-Makes :
      (d : Directory) (n : Node) (t : Tree R)
      → Served t.instances d
      → Makes client t (node_of client d n t)
  unfolding node_of
  node_of-Makes d n t (x, y, z) = elim (Bool-cases (n.mode == mode_dir)) [
    | inl a ↦
        simp a (made_node-Makes t _ (new_directory-Makes client d.directory_node_service n.id t x))
    | inr a ↦ elim (Bool-cases (n.mode == 0)) [
      | inl b ↦ elim (Bool-cases n.streamable) [
        | inl s ↦
            simp (a, b, s)
              (made_node-Makes t _ (new_streamable-Makes client d.streamable_node_service n.id t y))
        | inr s ↦
            simp (a, b, s)
              (made_file-Makes t _ (new_file-Makes client d.file_node_service n.id t z))
      ]
      | inr b ↦ elim (Bool-cases (n.mode == mode_symlink)) [
        | inl c ↦ simp (a, b, c) (Grows-refl t)
        | inr c ↦ simp (a, b, c) (Grows-refl t)
      ]
    ]
  ]

  found-error :
      (d : Directory) (n : Option Node) (e : GoError) (t : Tree R)
      → (found client d (n, some e) t).1 ≡ t
  found-error d n enoent t = refl
  found-error d n eagain t = refl
  found-error d n enosys t = refl
  found-error d n eof t = refl
  found-error d n context_canceled t = refl
  found-error d n (failure f) t = refl
  found-error d n (wrapped f e) t = refl
  found-error d n (external i) t = refl

  found-Makes :
      (d : Directory) (answer : Option Node × Error) (t : Tree R)
      → Served t.instances d
      → Makes client t (found client d answer t)
  found-Makes d (n, some e) t s =
      subst (λ (u : Tree R). Grows t u) (sym (found-error d n e t)) (Grows-refl t)
  found-Makes d (none, none) t s = Grows-refl t
  found-Makes d (some n, none) t s = node_of-Makes d n t s

  -- What follows a request to the remote side.
  asked : (t : Tree R) (r : R) (u : Tree R) → Grows (record t { remote = r }) u → Grows t u
  asked t r u g = Grows-trans t (record t { remote = r }) u (with_remote-Grows client t r) g

  pub lookup-Makes :
      (d : Directory) (name : String) (t : Tree R)
      → Served t.instances d
      → Makes client t (lookup client d name t)
  unfolding lookup
  lookup-Makes d name t s = elim (Bool-cases d.closed) [
    | inl c ↦ simp c (Grows-refl t)
    | inr c ↦
        let (answer, r) = client.file_system.lookup t.remote d.identifier name in
        simp c (asked t r _ (found-Makes d answer (record t { remote = r }) s))
  ]

  made_directory-Makes :
      (d : Directory) (answer : Option Node × Error) (t : Tree R)
      → Served t.instances d
      → Makes client t (made_directory client d answer t)
  made_directory-Makes d (n, some e) t s = Grows-refl t
  made_directory-Makes d (none, none) t s = Grows-refl t
  made_directory-Makes d (some n, none) t s =
      new_directory-Makes client d.directory_node_service n.id t s.0

  pub mkdir-Makes :
      (d : Directory) (name : String) (t : Tree R)
      → Served t.instances d
      → Makes client t (mkdir client d name t)
  unfolding mkdir
  mkdir-Makes d name t s = elim (Bool-cases d.closed) [
    | inl c ↦ simp c (Grows-refl t)
    | inr c ↦
        let (answer, r) = client.file_system.mk_dir t.remote d.identifier name in
        simp c (asked t r _ (made_directory-Makes d answer (record t { remote = r }) s))
  ]

  set_file-Kept :
      (t : Tree R) (i : ℕ) (n : File.Node)
      → IsKept t
      → Kept t.instances t.directories (length t.streamables) (length (set t.files i n))
  set_file-Kept t i n k =
      subst (Kept t.instances t.directories (length t.streamables)) (sym (length-set t.files i n)) k

  -- The file node at an index is another one, well-formed, and closed if the old one is.
  pub set_file-Grows :
      (t : Tree R) (i id : ℕ) (n : File.Node)
      → (Each IsWell t.files → IsWell n)
      → ((m : File.Node) → get_elem? t.files i ≡ some m → m.closed ≡ true → n.closed ≡ true)
      → Grows t (record t { files = set t.files i n; increment_id = id })
  set_file-Grows t i id n w c = record {
    registries = Extends-refl t.instances;
    served = λ s. s;
    kept = set_file-Kept t i n;
    files_well = λ f. set-Each IsWell t.files i n (w f) f;
    directories_tidy = λ w. w;
    streamables_fresh = λ j m q. inr q;
    directories_last = Lasts-refl is_closed_directory t.directories;
    streamables_last = Lasts-refl is_closed_streamable t.streamables;
    files_last = Lasts-set is_closed_file t.files i n c;
  }

  opened-Makes :
      (i : ℕ) (t : Tree R) (x : Outcome (Option ℕ) × File.Node × ℕ)
      → (Each IsWell t.files → IsWell x.1)
      → ((m : File.Node) → get_elem? t.files i ≡ some m → m.closed ≡ true → x.1.closed ≡ true)
      → Makes client t (opened client i t x)
  opened-Makes i t (ok h, n, id) w c = set_file-Grows t i id n w c
  opened-Makes i t (err e, n, id) w c = set_file-Grows t i id n w c
  opened-Makes i t (panics p, n, id) w c = set_file-Grows t i id n w c

  open_file-Makes : (i : ℕ) (t : Tree R) → Makes client t (open_file client i t)
  unfolding open_file
  open_file-Makes i t = elim (Option-cases (get_elem? t.files i)) [
    | inl q ↦ rw (open_file, q) (Grows-refl t)
    | inr (n, q) ↦
        rw (open_file, q)
          (opened-Makes i t (open_node t.increment_id n)
            (λ f. open_node-IsWell t.increment_id n (f i n q))
            (λ m e c.
              open_node-keeps_closed t.increment_id n
                (let same : m ≡ n = cc in subst (λ (x : File.Node). x.closed ≡ true) same c)))
  ]

  bind_tree-Makes :
      {A B : Type 0} (t : Tree R) (x : Outcome A × Tree R) (f : A → Tree R → Outcome B × Tree R)
      → Makes client t x
      → ((a : A) (t' : Tree R) → Makes client t' (f a t'))
      → Makes client t (bind_tree client x f)
  bind_tree-Makes t (ok a, t') f g h = Grows-trans t t' (f a t').1 g (h a t')
  bind_tree-Makes t (err x, t') f g h = g
  bind_tree-Makes t (panics p, t') f g h = g

  created-Makes :
      (d : Directory) (answer : Option Node × Error) (t : Tree R)
      → Served t.instances d
      → Makes client t (created client d answer t)
  created-Makes d (n, some e) t s = Grows-refl t
  created-Makes d (none, none) t s = Grows-refl t
  created-Makes d (some n, none) t s =
      bind_tree-Makes t _ (open_file client) (new_file-Makes client d.file_node_service n.id t s.2)
        open_file-Makes

  look_up_created-Makes :
      (d : Directory) (name : String) (e : Error) (t : Tree R)
      → Served t.instances d
      → Makes client t (look_up_created client d name e t)
  look_up_created-Makes d name (some e) t s = Grows-refl t
  look_up_created-Makes d name none t s =
      let (answer, r) = client.file_system.lookup t.remote d.identifier name in
      asked t r _ (created-Makes d answer (record t { remote = r }) s)

  pub create-Makes :
      (d : Directory) (name : String) (mode : ℕ) (t : Tree R)
      → Served t.instances d
      → Makes client t (create client d name mode t)
  unfolding create
  create-Makes d name mode t s = elim (Bool-cases d.closed) [
    | inl c ↦ simp c (Grows-refl t)
    | inr c ↦
        let (e, r) = client.file_system.create t.remote d.identifier name (mode % 2 ^ 32) in
        simp c (asked t r _ (look_up_created-Makes d name e (record t { remote = r }) s))
  ]

  -- The same for a tree whose nodes are all in a registry.
  pub requests-Keeps :
      (d : Directory) (name : String) (mode : ℕ) (t : Tree R)
      → IsKept t
      → Served t.instances d
      → Keeps client t (lookup client d name t)
        × Keeps client t (mkdir client d name t)
        × Keeps client t (create client d name mode t)
  requests-Keeps d name mode t k s = (
    Makes-Keeps client t (lookup client d name t) k (lookup-Makes d name t s),
    Makes-Keeps client t (mkdir client d name t) k (mkdir-Makes d name t s),
    Makes-Keeps client t (create client d name mode t) k (create-Makes d name mode t s),
  )
