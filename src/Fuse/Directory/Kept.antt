-- ===== src/Fuse/Directory/Kept.antt =====
-- Lemmas about the node services under filesystem/server/provider/fuse/filesystem, and the registries.
use fuse_video_streamer.Base.{
  ℕ, ◌≡◌, inl, inr, refl, true, false, Option, none, some, length, Lasts-refl, Lasts-snoc,
  Bool-cases,
}
use fuse_video_streamer.Go.{Error, Outcome}
use fuse_video_streamer.Client.{Client, Node}
use fuse_video_streamer.Fuse.Registry.{
  directory, streamable, file, Instances, is_instance, instance_of, get_instance, add,
}
use fuse_video_streamer.Fuse.Directory.{Service, Tree}
use fuse_video_streamer.Fuse.Directory.Services.{
  service_of, new_service, bind_tree, add_directory, new_directory, add_streamable, new_streamable,
  add_file, new_file,
}
use fuse_video_streamer.Fuse.Directory.Grows.{
  OldOrFresh-snoc, Grows, Grows-refl, Grows-trans, new_node-snoc, is_closed_directory,
  is_closed_streamable, is_closed_file,
}
use fuse_video_streamer.Fuse.Directory.Tidy.{IsTidy-snoc}
use fuse_video_streamer.Fuse.Directory.Served.{
  AllServed, AllServed-Extends, AllServed-snoc, Kept-Extends, IsKept, all_snoc,
}
use fuse_video_streamer.Fuse.Directory.Registered.{
  Registered, Extends, Extends-refl, add-Extends, add-Registered, with_name, with_name-Extends,
}

module _ {R : Type 0} (client : Client R) where
  -- A call only made new nodes.
  abbrev pub Makes : {A : Type 0} → Tree R → Outcome A × Tree R → Type 0
  Makes t (x, t') = Grows t t'

  -- A call kept the tree's nodes registered, and only made new ones.
  abbrev pub Keeps : {A : Type 0} → Tree R → Outcome A × Tree R → Type 0
  Keeps t (x, t') = IsKept t' × Grows t t'

  pub Makes-Keeps :
      {A : Type 0} (t : Tree R) (r : Outcome A × Tree R) → IsKept t → Makes t r → Keeps t r
  Makes-Keeps t (x, t') k g = (g.kept k, g)

  add_directory-Makes :
      (identifier : ℕ) (service d s f : Service) (t : Tree R)
      → is_instance t.instances service.registry ≡ true
      → is_instance t.instances d.registry ≡ true
      → is_instance t.instances s.registry ≡ true
      → is_instance t.instances f.registry ≡ true
      → Makes t (add_directory client identifier service d s f t)
  add_directory-Makes identifier service d s f t i x y z =
      let a = t.instances in
      let n = directory (length t.directories) in
      let more = add-Extends n a service.registry in
      let served' = λ (p : AllServed a t.directories).
        AllServed-snoc (add n a service.registry) t.directories _
          (AllServed-Extends a (add n a service.registry) t.directories more p)
          (more.1 d.registry x, more.1 s.registry y, more.1 f.registry z) in
      record {
        registries = more;
        served = served';
        kept = λ k. record {
          served = served' k.served;
          directories =
              all_snoc (λ j. Registered (directory j) (add n a service.registry)) t.directories _
                (λ j b. more.0 (directory j) (k.directories j b))
                (add-Registered n a service.registry i);
          streamables = λ j b. more.0 (streamable j) (k.streamables j b);
          files = λ j b. more.0 (file j) (k.files j b);
        };
        files_well = λ w. w;
        directories_tidy = IsTidy-snoc t.directories _ refl;
        streamables_fresh = λ j m q. inr q;
        directories_last = Lasts-snoc is_closed_directory t.directories _;
        streamables_last = Lasts-refl is_closed_streamable t.streamables;
        files_last = Lasts-refl is_closed_file t.files;
      }

  add_streamable-Makes :
      (identifier : ℕ) (service : Service) (answer : ℕ × Error) (t : Tree R)
      → is_instance t.instances service.registry ≡ true
      → Makes t (add_streamable client identifier service answer t)
  add_streamable-Makes identifier service (size, some e) t i = Grows-refl t
  add_streamable-Makes identifier service (size, none) t i =
      let a = t.instances in
      let n = streamable (length t.streamables) in
      let more = add-Extends n a service.registry in
      record {
        registries = more;
        served = AllServed-Extends a (add n a service.registry) t.directories more;
        kept = λ k.
            let k' = Kept-Extends a (add n a service.registry) _ _ _ more k in
            record {
              served = k'.served;
              directories = k'.directories;
              streamables =
                  all_snoc (λ j. Registered (streamable j) (add n a service.registry)) t.streamables
                    _ k'.streamables (add-Registered n a service.registry i);
              files = k'.files;
            };
        files_well = λ w. w;
        directories_tidy = λ w. w;
        streamables_fresh = OldOrFresh-snoc t.streamables identifier size;
        directories_last = Lasts-refl is_closed_directory t.directories;
        streamables_last = Lasts-snoc is_closed_streamable t.streamables _;
        files_last = Lasts-refl is_closed_file t.files;
      }

  add_file-Makes :
      (identifier : ℕ) (service : Service) (answer : ℕ × Error) (t : Tree R)
      → is_instance t.instances service.registry ≡ true
      → Makes t (add_file client identifier service answer t)
  add_file-Makes identifier service (size, some e) t i = Grows-refl t
  add_file-Makes identifier service (size, none) t i =
      let a = t.instances in
      let n = file (length t.files) in
      let more = add-Extends n a service.registry in
      record {
        registries = more;
        served = AllServed-Extends a (add n a service.registry) t.directories more;
        kept = λ k.
            let k' = Kept-Extends a (add n a service.registry) _ _ _ more k in
            record {
              served = k'.served;
              directories = k'.directories;
              streamables = k'.streamables;
              files =
                  all_snoc (λ j. Registered (file j) (add n a service.registry)) t.files _ k'.files
                    (add-Registered n a service.registry i);
            };
        files_well = new_node-snoc t.files identifier size;
        directories_tidy = λ w. w;
        streamables_fresh = λ j m q. inr q;
        directories_last = Lasts-refl is_closed_directory t.directories;
        streamables_last = Lasts-refl is_closed_streamable t.streamables;
        files_last = Lasts-snoc is_closed_file t.files _;
      }

  -- New registries, and another remote side.
  with_registries-Grows :
      (t : Tree R) (r : R) (b : Instances)
      → Extends t.instances b
      → Grows t (record t { remote = r; instances = b })
  with_registries-Grows t r b more = record {
    registries = more;
    served = AllServed-Extends t.instances b t.directories more;
    kept = Kept-Extends t.instances b _ _ _ more;
    files_well = λ w. w;
    directories_tidy = λ w. w;
    streamables_fresh = λ j m q. inr q;
    directories_last = Lasts-refl is_closed_directory t.directories;
    streamables_last = Lasts-refl is_closed_streamable t.streamables;
    files_last = Lasts-refl is_closed_file t.files;
  }

  pub with_remote-Grows : (t : Tree R) (r : R) → Grows t (record t { remote = r })
  with_remote-Grows t r = with_registries-Grows t r t.instances (Extends-refl t.instances)

  service_of-Makes :
      {B : Type 0} (answer : Option Node × Error) (r : R) (t : Tree R)
      (g : Service → Tree R → Outcome B × Tree R)
      → ((s : Service) (t' : Tree R)
          → Extends t.instances t'.instances
          → is_instance t'.instances s.registry ≡ true
          → Makes t' (g s t'))
      → Makes t (bind_tree client (service_of client (instance_of t.instances answer, r) t) g)
  service_of-Makes (root, some e) r t g h = with_remote-Grows t r
  service_of-Makes (none, none) r t g h = with_remote-Grows t r
  service_of-Makes (some root, none) r t g h =
      let b = with_name t.instances root.name in
      let (more, is) = with_name-Extends t.instances root.name in
      let t' : Tree R = record t { remote = r; instances = b } in
      let s : Service = record { registry = root.name; closed = false } in
      Grows-trans t t' (g s t').1 (with_registries-Grows t r b more) (h s t' more is)

  pub new_service-Makes :
      {B : Type 0} (t : Tree R) (g : Service → Tree R → Outcome B × Tree R)
      → ((s : Service) (t' : Tree R)
          → Extends t.instances t'.instances
          → is_instance t'.instances s.registry ≡ true
          → Makes t' (g s t'))
      → Makes t (bind_tree client (new_service client t) g)
  unfolding new_service get_instance
  new_service-Makes t g h =
      let (answer, r) = client.file_system.root t.remote client.name in
      service_of-Makes answer r t g h

  pub new_directory-Makes :
      (service : Service) (identifier : ℕ) (t : Tree R)
      → is_instance t.instances service.registry ≡ true
      → Makes t (new_directory client service identifier t)
  unfolding new_directory
  new_directory-Makes service identifier t i = elim (Bool-cases service.closed) [
    | inl c ↦ simp c (Grows-refl t)
    | inr c ↦ simp c (
        new_service-Makes t _ (λ d t1 e1 i1. new_service-Makes t1 _ (λ s t2 e2 i2.
          new_service-Makes t2 _ (λ f t3 e3 i3.
            add_directory-Makes identifier service d s f t3 (e3.1 _ (e2.1 _ (e1.1 _ i)))
              (e3.1 _ (e2.1 _ i1)) (e3.1 _ i2) i3))))
  ]

  pub new_streamable-Makes :
      (service : Service) (identifier : ℕ) (t : Tree R)
      → is_instance t.instances service.registry ≡ true
      → Makes t (new_streamable client service identifier t)
  unfolding new_streamable
  new_streamable-Makes service identifier t i = elim (Bool-cases service.closed) [
    | inl c ↦ simp c (Grows-refl t)
    | inr c ↦
        let (answer, r) = client.file_system.get_file_info t.remote identifier in
        let t' : Tree R = record t { remote = r } in
        simp c (
          Grows-trans t t' _ (with_remote-Grows t r)
            (add_streamable-Makes identifier service answer t' i))
  ]

  pub new_file-Makes :
      (service : Service) (identifier : ℕ) (t : Tree R)
      → is_instance t.instances service.registry ≡ true
      → Makes t (new_file client service identifier t)
  unfolding new_file
  new_file-Makes service identifier t i = elim (Bool-cases service.closed) [
    | inl c ↦ simp c (Grows-refl t)
    | inr c ↦
        let (answer, r) = client.file_system.get_file_info t.remote identifier in
        let t' : Tree R = record t { remote = r } in
        simp c (
          Grows-trans t t' _ (with_remote-Grows t r)
            (add_file-Makes identifier service answer t' i))
  ]
