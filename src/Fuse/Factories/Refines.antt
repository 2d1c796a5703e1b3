-- ===== src/Fuse/Factories/Refines.antt =====
-- With the loggers in the map of logger/main.go, the services under
-- filesystem/server/provider/fuse/filesystem do what they do where a logger is always made.
use Prim.Native.String.{String}
use mathlib.Core.Path.{subst}
use fuse_video_streamer.Base.{
  ℕ, ◌≡◌, refl, ap, ◌∙◌, inl, inr, true, false, Bool, Option, none, some, Bool-cases,
}
use fuse_video_streamer.Go.{Outcome, ok, err, panics}
use fuse_video_streamer.Client.{Client}
use fuse_video_streamer.Logger.{Os, Logger}
use fuse_video_streamer.Logger.Cached.{cached}
use fuse_video_streamer.Fuse.Registry.{NodeRef}
use fuse_video_streamer.Fuse.Directory.{Service, Directory, Tree}
use fuse_video_streamer.Fuse.Directory.Requests
use fuse_video_streamer.Fuse.File.Node as File
use fuse_video_streamer.Fuse.Directory.Services as Services
use fuse_video_streamer.Fuse.Factories.{
  Making, with_tree, lift, bind, or_panic, log, new_directory_node_service,
  new_streamable_node_service, new_file_node_service, with_services, new_directory, new_streamable,
  new_file, make_directory_handle, open_directory, opened_by, open_file_by, open_file,
}
use fuse_video_streamer.Fuse.Factories.Known.{Knows, Ready, IfOk, new_directory-IfOk}

log-known :
    {R X : Type 0} (os : Os X) (service : String) (m : Making R X)
    → Knows os service m.loggers
    → (l : Logger) × (log os service m ≡ (ok l, m))
unfolding log
log-known os service m (l, e) = (
  record { logger = l; service = service },
  ap (λ q. (q.0.0, record m { loggers = q.0.1; disk = q.1 }))
      (cached os service m.loggers m.disk l e),
)

module _ {R X : Type 0} (os : Os X) (client : Client R) where
  abbrev placed : {A : Type 0} → Making R X → Outcome A × Tree R → Outcome A × Making R X
  placed m (r, t) = (r, with_tree m t)

  placed-bind :
      {A B : Type 0} (q : Outcome A × Tree R) (h : A → Tree R → Outcome B × Tree R) (m : Making R X)
      (f : A → Making R X → Outcome B × Making R X)
      → ((a : A) (t : Tree R) → f a (with_tree m t) ≡ lift (h a) (with_tree m t))
      → bind (placed m q) f ≡ placed m (Services.bind_tree client q h)
  placed-bind (ok a, t) h m f same = same a t
  placed-bind (err e, t) h m f same = refl
  placed-bind (panics p, t) h m f same = refl

  lift-bind :
      {A B : Type 0} (g : Tree R → Outcome A × Tree R) (h : A → Tree R → Outcome B × Tree R)
      (m : Making R X) (f : A → Making R X → Outcome B × Making R X)
      → ((a : A) (t : Tree R) → f a (with_tree m t) ≡ lift (h a) (with_tree m t))
      → bind (lift g m) f ≡ lift (λ t. Services.bind_tree client (g t) h) m
  lift-bind g h m f same = placed-bind (g m.tree) h m f same

  service-Refines :
      (m : Making R X)
      → Ready os m.loggers
      → bind
          (log os "File Node Service" m)
          (λ (l : Logger) m'. lift (Services.new_service client) m')
        ≡ lift (Services.new_service client) m
  service-Refines m (root, file) =
      let (l, e) = log-known os "File Node Service" m file in
      ap (λ q. bind q (λ (l : Logger) m'. lift (Services.new_service client) m')) e

  service-bind :
      {B : Type 0} (h : Service → Tree R → Outcome B × Tree R) (m : Making R X)
      (f : Service → Making R X → Outcome B × Making R X)
      → Ready os m.loggers
      → ((s : Service) (t : Tree R) → f s (with_tree m t) ≡ lift (h s) (with_tree m t))
      → bind
          (bind
            (log os "File Node Service" m)
            (λ (l : Logger) m'. lift (Services.new_service client) m'))
          f
        ≡ lift (λ t. Services.bind_tree client (Services.new_service client t) h) m
  service-bind h m f ready same =
      ap (λ q. bind q f) (service-Refines m ready)
      ∙ lift-bind (Services.new_service client) h m f same

  -- What the directory node service does behind its test.
  abbrev unlogged : ℕ → Service → Tree R → Outcome NodeRef × Tree R
  unlogged identifier service t = Services.bind_tree client (Services.new_service client t) (λ d t1.
      Services.bind_tree client (Services.new_service client t1) (λ s t2.
        Services.bind_tree client (Services.new_service client t2)
          (λ f t3. Services.add_directory client identifier service d s f t3)))

  with_services-Refines :
      (identifier : ℕ) (service : Service) (m : Making R X)
      → Ready os m.loggers
      → with_services os client identifier service m ≡ lift (unlogged identifier service) m
  unfolding with_services new_directory_node_service new_streamable_node_service
      new_file_node_service
  with_services-Refines identifier service m ready =
      lift-bind (Services.new_service client) _ m _ (λ d t1.
        service-bind _ (with_tree m t1) _ ready
          (λ s t2. service-bind _ (with_tree m t2) _ ready (λ f t3. refl)))

  -- A New that first makes the logger of the node.
  root_log-Refines :
      {A : Type 0} (m : Making R X) (f : Making R X → Outcome A × Making R X)
      → Ready os m.loggers
      → bind (or_panic (log os "Root Node" m)) (λ (l : Logger) m'. f m') ≡ f m
  root_log-Refines m f (root, file) =
      let (l, e) = log-known os "Root Node" m root in
      ap (λ q. bind (or_panic q) (λ (l : Logger) m'. f m')) e

  new_directory-Refines :
      (service : Service) (identifier : ℕ) (m : Making R X)
      → Ready os m.loggers
      → new_directory os client service identifier m
        ≡ lift (Services.new_directory client service identifier) m
  unfolding new_directory Services.new_directory
  new_directory-Refines service identifier m ready = elim (Bool-cases service.closed) [
    | inl c ↦ simp c refl
    | inr c ↦ simp c (
        root_log-Refines m (with_services os client identifier service) ready
        ∙ with_services-Refines identifier service m ready)
  ]

  new_streamable-Refines :
      (service : Service) (identifier : ℕ) (m : Making R X)
      → Ready os m.loggers
      → new_streamable os client service identifier m
        ≡ lift (Services.new_streamable client service identifier) m
  unfolding new_streamable Services.new_streamable
  new_streamable-Refines service identifier m ready = elim (Bool-cases service.closed) [
    | inl c ↦ simp c refl
    | inr c ↦ simp c (root_log-Refines m _ ready)
  ]

  new_file-Refines :
      (service : Service) (identifier : ℕ) (m : Making R X)
      → Ready os m.loggers
      → new_file os client service identifier m
        ≡ lift (Services.new_file client service identifier) m
  unfolding new_file Services.new_file
  new_file-Refines service identifier m ready = elim (Bool-cases service.closed) [
    | inl c ↦ simp c refl
    | inr c ↦ simp c (root_log-Refines m _ ready)
  ]

  -- All three services do what they do where loggers are always made, and make none.
  abbrev pub Refines : Service → ℕ → Making R X → Type 0
  Refines service identifier m =
      (new_directory os client service identifier m
        ≡ lift (Services.new_directory client service identifier) m)
      × (new_streamable os client service identifier m
          ≡ lift (Services.new_streamable client service identifier) m)
      × (new_file os client service identifier m
          ≡ lift (Services.new_file client service identifier) m)

  -- Once a New of an open directory node service has succeeded, with whatever loggers and disk it
  -- began, later calls of New of the directory, the streamable and the file node services, for any
  -- identifier on any later nodes, make no logger, and do what they do where NewLogger never
  -- fails.
  pub later_nodes-Refines :
      (first service : Service) (first_identifier identifier : ℕ) (n : NodeRef) (m m' : Making R X)
      (later : Tree R)
      → first.closed ≡ false
      → new_directory os client first first_identifier m ≡ (ok n, m')
      → Refines service identifier (with_tree m' later)
  later_nodes-Refines first service first_identifier identifier n m m' later running made =
      let ready : Ready os m'.loggers =
        subst (IfOk (Ready os)) made
          (new_directory-IfOk os client first first_identifier m running) in
      let m'' = with_tree m' later in
      (
        new_directory-Refines service identifier m'' ready,
        new_streamable-Refines service identifier m'' ready,
        new_file-Refines service identifier m'' ready,
      )

-- `Open` of a directory and of a file, with the logger of the handle in the map.
module _ {R X : Type 0} (os : Os X) where
  open_directory-Refines :
      (increment_id : ℕ) (d : Directory) (m : Making R X)
      → Knows os "Directory Handle" m.loggers
      → open_directory os increment_id d m ≡ (Requests.open_directory increment_id d, m)
  unfolding open_directory make_directory_handle Requests.open_directory
  open_directory-Refines increment_id d m k = elim (Bool-cases d.closed) [
    | inl c ↦ simp c refl
    | inr c ↦ let (l, e) = log-known os "Directory Handle" m k in simp (c, e) refl
  ]

  open_file-Refines :
      (increment_id : ℕ) (n : File.Node) (m : Making R X)
      → Knows os "File Handle" m.loggers
      → open_file os increment_id n m ≡ (File.open_node increment_id n, m)
  unfolding open_file File.open_node File.open_handle
  open_file-Refines increment_id n m k = elim (Bool-cases n.closed) [
    | inl c ↦ simp c refl
    | inr c ↦ simp c (by_service n.service)
  ]
    where
      by_service :
          (o : Option Bool)
          → open_file_by os increment_id n m o ≡ (File.open_by increment_id n o, m)
      by_service none = refl
      by_service (some true) = refl
      by_service (some false) = ap (opened_by os increment_id n) (log-known os "File Handle" m k).1
