-- ===== src/Fuse/Directory/Pointers.antt =====
-- Theorems about nil nodes in filesystem/server/provider/fuse/filesystem/directory/node/main.go.
use Prim.Native.String.{String}
use fuse_video_streamer.Base.{ℕ, inl, inr, Option, none, some, ◌==◌, Bool-cases}
use fuse_video_streamer.Go.{
  enoent, eagain, enosys, eof, context_canceled, failure, wrapped, external, Error, Outcome, ok,
  err, panics, nil_dereference, bad_type_assertion, slice_out_of_range, explicit,
}
use fuse_video_streamer.Client.{Client, Node, mode_dir, mode_symlink}
use fuse_video_streamer.Client.Grpc.Answers.{Present}
use fuse_video_streamer.Fuse.Registry.{NodeRef, Instances, instance_of, get_instance}
use fuse_video_streamer.Fuse.Directory.{Service, Directory, Tree}
use fuse_video_streamer.Fuse.Directory.Services.{
  service_of, new_service, bind_tree, new_directory, add_streamable, new_streamable, add_file,
  new_file,
}
use fuse_video_streamer.Fuse.Directory.Requests.{
  made_node, made_file, node_of, lookup, found, made_directory, mkdir,
}

-- The call did not panic at a nil pointer.
abbrev pub NoNil : {A : Type 0} → Outcome A → Type 0
NoNil (panics nil_dereference) = ⊥
NoNil (panics bad_type_assertion) = Unit {0}
NoNil (panics slice_out_of_range) = Unit {0}
NoNil (panics explicit) = Unit {0}
NoNil (ok a) = Unit {0}
NoNil (err e) = Unit {0}

module _ {R : Type 0} (client : Client R) where
  bind_tree-NoNil :
      {A B : Type 0} (x : Outcome A × Tree R) (f : A → Tree R → Outcome B × Tree R)
      → NoNil x.0
      → ((a : A) (t : Tree R) → NoNil (f a t).0)
      → NoNil (bind_tree client x f).0
  bind_tree-NoNil (ok a, t) f n h = h a t
  bind_tree-NoNil (err e, t) f n h = tt
  bind_tree-NoNil (panics nil_dereference, t) f n h = n
  bind_tree-NoNil (panics bad_type_assertion, t) f n h = tt
  bind_tree-NoNil (panics slice_out_of_range, t) f n h = tt
  bind_tree-NoNil (panics explicit, t) f n h = tt

  service_of-NoNil :
      (a : Instances) (answer : Option Node × Error) (r : R) (t : Tree R)
      → Present answer
      → NoNil (service_of client (instance_of a answer, r) t).0
  service_of-NoNil a (root, some e) r t p = tt
  service_of-NoNil a (none, none) r t p = p
  service_of-NoNil a (some root, none) r t p = tt

  made_node-NoNil : (x : Outcome NodeRef × Tree R) → NoNil x.0 → NoNil (made_node client x).0
  made_node-NoNil (ok a, t) n = tt
  made_node-NoNil (err e, t) n = tt
  made_node-NoNil (panics nil_dereference, t) n = n
  made_node-NoNil (panics bad_type_assertion, t) n = tt
  made_node-NoNil (panics slice_out_of_range, t) n = tt
  made_node-NoNil (panics explicit, t) n = tt

  made_file-NoNil : (x : Outcome ℕ × Tree R) → NoNil x.0 → NoNil (made_file client x).0
  made_file-NoNil (ok a, t) n = tt
  made_file-NoNil (err e, t) n = tt
  made_file-NoNil (panics nil_dereference, t) n = n
  made_file-NoNil (panics bad_type_assertion, t) n = tt
  made_file-NoNil (panics slice_out_of_range, t) n = tt
  made_file-NoNil (panics explicit, t) n = tt

  add_streamable-NoNil :
      (identifier : ℕ) (service : Service) (answer : ℕ × Error) (t : Tree R)
      → NoNil (add_streamable client identifier service answer t).0
  add_streamable-NoNil identifier service (size, some e) t = tt
  add_streamable-NoNil identifier service (size, none) t = tt

  add_file-NoNil :
      (identifier : ℕ) (service : Service) (answer : ℕ × Error) (t : Tree R)
      → NoNil (add_file client identifier service answer t).0
  add_file-NoNil identifier service (size, some e) t = tt
  add_file-NoNil identifier service (size, none) t = tt

  new_streamable-NoNil :
      (service : Service) (identifier : ℕ) (t : Tree R)
      → NoNil (new_streamable client service identifier t).0
  unfolding new_streamable
  new_streamable-NoNil service identifier t = elim (Bool-cases service.closed) [
    | inl c ↦ simp c tt
    | inr c ↦ simp c (add_streamable-NoNil identifier service _ _)
  ]

  new_file-NoNil :
      (service : Service) (identifier : ℕ) (t : Tree R)
      → NoNil (new_file client service identifier t).0
  unfolding new_file
  new_file-NoNil service identifier t = elim (Bool-cases service.closed) [
    | inl c ↦ simp c tt
    | inr c ↦ simp c (add_file-NoNil identifier service _ _)
  ]

  module _ (roots : (r : R) (name : String) → Present (client.file_system.root r name).0) where
    new_service-NoNil : (t : Tree R) → NoNil (new_service client t).0
    unfolding new_service get_instance
    new_service-NoNil t = service_of-NoNil t.instances _ _ t (roots t.remote client.name)

    new_directory-NoNil :
        (service : Service) (identifier : ℕ) (t : Tree R)
        → NoNil (new_directory client service identifier t).0
    unfolding new_directory
    new_directory-NoNil service identifier t = elim (Bool-cases service.closed) [
      | inl c ↦ simp c tt
      | inr c ↦ simp c (
          bind_tree-NoNil (new_service client t) _ (new_service-NoNil t) (λ d t1.
            bind_tree-NoNil (new_service client t1) _ (new_service-NoNil t1) (λ s t2.
              bind_tree-NoNil (new_service client t2) _ (new_service-NoNil t2) (λ f t3. tt))))
    ]

    node_of-NoNil : (d : Directory) (n : Node) (t : Tree R) → NoNil (node_of client d n t).0
    unfolding node_of
    node_of-NoNil d n t = elim (Bool-cases (n.mode == mode_dir)) [
      | inl a ↦ simp a (made_node-NoNil _ (new_directory-NoNil d.directory_node_service n.id t))
      | inr a ↦ elim (Bool-cases (n.mode == 0)) [
        | inl b ↦ elim (Bool-cases n.streamable) [
          | inl s ↦
              simp (a, b, s)
                (made_node-NoNil _ (new_streamable-NoNil d.streamable_node_service n.id t))
          | inr s ↦ simp (a, b, s) (made_file-NoNil _ (new_file-NoNil d.file_node_service n.id t))
        ]
        | inr b ↦ elim (Bool-cases (n.mode == mode_symlink)) [
          | inl c ↦ simp (a, b, c) tt
          | inr c ↦ simp (a, b, c) tt
        ]
      ]
    ]

    found-NoNil :
        (d : Directory) (answer : Option Node × Error) (t : Tree R)
        → NoNil (found client d answer t).0
    found-NoNil d (n, some enoent) t = tt
    found-NoNil d (n, some eagain) t = tt
    found-NoNil d (n, some enosys) t = tt
    found-NoNil d (n, some eof) t = tt
    found-NoNil d (n, some context_canceled) t = tt
    found-NoNil d (n, some (failure f)) t = tt
    found-NoNil d (n, some (wrapped f e)) t = tt
    found-NoNil d (n, some (external i)) t = tt
    found-NoNil d (none, none) t = tt
    found-NoNil d (some n, none) t = node_of-NoNil d n t

    made_directory-NoNil :
        (d : Directory) (answer : Option Node × Error) (t : Tree R)
        → Present answer
        → NoNil (made_directory client d answer t).0
    made_directory-NoNil d (n, some e) t p = tt
    made_directory-NoNil d (none, none) t p = p
    made_directory-NoNil d (some n, none) t p = new_directory-NoNil d.directory_node_service n.id t

    lookup-NoNil : (d : Directory) (name : String) (t : Tree R) → NoNil (lookup client d name t).0
    unfolding lookup
    lookup-NoNil d name t = elim (Bool-cases d.closed) [
      | inl c ↦ simp c tt
      | inr c ↦ simp c (found-NoNil d _ _)
    ]

    mkdir-NoNil :
        (d : Directory) (name : String) (t : Tree R)
        → Present (client.file_system.mk_dir t.remote d.identifier name).0
        → NoNil (mkdir client d name t).0
    unfolding mkdir
    mkdir-NoNil d name t given = elim (Bool-cases d.closed) [
      | inl c ↦ simp c tt
      | inr c ↦ simp c (made_directory-NoNil d _ _ given)
    ]

    -- With a file system whose Root never returns a nil node beside a nil error, and whatever its
    -- Lookup returns, nil nodes included, Lookup of a directory does not panic at a nil pointer,
    -- nor does Mkdir where the file system's MkDir returns no nil node beside a nil error.
    pub requests-NoNil :
        (d : Directory) (name : String) (t : Tree R)
        → NoNil (lookup client d name t).0
          × (Present (client.file_system.mk_dir t.remote d.identifier name).0
              → NoNil (mkdir client d name t).0)
    requests-NoNil d name t = (lookup-NoNil d name t, mkdir-NoNil d name t)
