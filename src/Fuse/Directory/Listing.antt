-- ===== src/Fuse/Directory/Listing.antt =====
-- Theorems about listings and lookups of filesystem/server/provider/fuse/filesystem/directory.
use fuse_video_streamer.Base.{ℕ, ◌≡◌, refl, inl, inr, none, some, [], ◌∷◌, arith, ◌==◌, Bool-cases}
use fuse_video_streamer.Go.{Error, Outcome, ok, err, panics}
use fuse_video_streamer.Client.{Client, Node, mode_dir, mode_symlink}
use fuse_video_streamer.Fuse.Registry.{NodeRef, directory, streamable, file}
use fuse_video_streamer.Fuse.Directory.{Service, Directory, Tree}
use fuse_video_streamer.Fuse.Directory.Handle.{EntryKind, dt_link, dt_file, dt_dir, entries_of}
use fuse_video_streamer.Fuse.Directory.Services.{
  bind_tree, new_service, new_directory, add_streamable, new_streamable, add_file, new_file,
}
use fuse_video_streamer.Fuse.Directory.Requests.{
  FsNode, made, symlink, made_node, made_file, node_of,
}

-- The type that a listing shows for such a node.
abbrev pub kind_of : FsNode → EntryKind
kind_of (made (directory i)) = dt_dir
kind_of (made (streamable i)) = dt_file
kind_of (made (file i)) = dt_file
kind_of (symlink i) = dt_link

module _ {R : Type 0} (client : Client R) where
  -- Where the lookup makes a node, the listing has one entry, of the node's kind.
  abbrev pub Shows : Node → Outcome FsNode × Tree R → Type 0
  Shows n (ok x, t) = entries_of (n ∷ []) ≡ (record { name = n.name; kind = kind_of x }) ∷ []
  Shows n (err e, t) = Unit {0}
  Shows n (panics p, t) = Unit {0}

  Makes : EntryKind → Outcome FsNode × Tree R → Type 0
  Makes k (ok x, t) = kind_of x ≡ k
  Makes k (err e, t) = Unit {0}
  Makes k (panics p, t) = Unit {0}

  bind_tree-Makes :
      {A : Type 0} (k : EntryKind) (x : Outcome A × Tree R)
      (f : A → Tree R → Outcome NodeRef × Tree R)
      → ((a : A) (t : Tree R) → Makes k (made_node client (f a t)))
      → Makes k (made_node client (bind_tree client x f))
  unfolding Makes
  bind_tree-Makes k (ok a, t) f h = h a t
  bind_tree-Makes k (err e, t) f h = tt
  bind_tree-Makes k (panics p, t) f h = tt

  new_directory-Makes :
      (service : Service) (identifier : ℕ) (t : Tree R)
      → Makes dt_dir (made_node client (new_directory client service identifier t))
  unfolding new_directory Makes
  new_directory-Makes service identifier t = elim (Bool-cases service.closed) [
    | inl c ↦ simp c tt
    | inr c ↦ simp c (
        bind_tree-Makes dt_dir (new_service client t) _ (λ d t1.
          bind_tree-Makes dt_dir (new_service client t1) _
            (λ s t2. bind_tree-Makes dt_dir (new_service client t2) _ (λ f t3. refl))))
  ]

  add_streamable-Makes :
      (identifier : ℕ) (service : Service) (answer : ℕ × Error) (t : Tree R)
      → Makes dt_file (made_node client (add_streamable client identifier service answer t))
  unfolding Makes
  add_streamable-Makes identifier service (size, some e) t = tt
  add_streamable-Makes identifier service (size, none) t = refl

  new_streamable-Makes :
      (service : Service) (identifier : ℕ) (t : Tree R)
      → Makes dt_file (made_node client (new_streamable client service identifier t))
  unfolding new_streamable Makes
  new_streamable-Makes service identifier t = elim (Bool-cases service.closed) [
    | inl c ↦ simp c tt
    | inr c ↦ simp c (add_streamable-Makes identifier service _ _)
  ]

  add_file-Makes :
      (identifier : ℕ) (service : Service) (answer : ℕ × Error) (t : Tree R)
      → Makes dt_file (made_file client (add_file client identifier service answer t))
  unfolding Makes
  add_file-Makes identifier service (size, some e) t = tt
  add_file-Makes identifier service (size, none) t = refl

  new_file-Makes :
      (service : Service) (identifier : ℕ) (t : Tree R)
      → Makes dt_file (made_file client (new_file client service identifier t))
  unfolding new_file Makes
  new_file-Makes service identifier t = elim (Bool-cases service.closed) [
    | inl c ↦ simp c tt
    | inr c ↦ simp c (add_file-Makes identifier service _ _)
  ]

  Makes-Shows :
      (k : EntryKind) (n : Node) (r : Outcome FsNode × Tree R)
      → entries_of (n ∷ []) ≡ (record { name = n.name; kind = k }) ∷ []
      → Makes k r
      → Shows n r
  unfolding Makes
  Makes-Shows k n (ok x, t) e m = rw m e
  Makes-Shows k n (err x, t) e m = tt
  Makes-Shows k n (panics p, t) e m = tt

  -- Where Lookup makes a node for an answer of the remote file system, ReadDirAll lists that
  -- answer as one entry of the same name and of the type of the node that was made.
  pub node_of-Shows : (d : Directory) (n : Node) (t : Tree R) → Shows n (node_of client d n t)
  unfolding node_of entries_of
  node_of-Shows d n t = elim (Bool-cases (n.mode == mode_dir)) [
    | inl a ↦ simp a (
        Makes-Shows dt_dir n _ (ground arith) (new_directory-Makes d.directory_node_service n.id t))
    | inr a ↦ elim (Bool-cases (n.mode == 0)) [
      | inl b ↦ elim (Bool-cases n.streamable) [
        | inl s ↦
            simp (a, b, s)
              (Makes-Shows dt_file n _ (ground arith)
                (new_streamable-Makes d.streamable_node_service n.id t))
        | inr s ↦
            simp (a, b, s)
              (Makes-Shows dt_file n _ (ground arith) (new_file-Makes d.file_node_service n.id t))
      ]
      | inr b ↦ elim (Bool-cases (n.mode == mode_symlink)) [
        | inl c ↦ simp (a, b, c) (ground arith)
        | inr c ↦ simp (a, b, c) tt
      ]
    ]
  ]
