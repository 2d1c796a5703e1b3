-- ===== src/Fuse/Factories.antt =====
-- The factories of the node services under filesystem/server/provider/fuse/filesystem, and `New` of the
-- services and of the handle services of directories and files, with the loggers that each of them
-- makes: all that may fail where a log file cannot be opened.
pub mod Known
pub mod Refines
use Prim.Native.String.{String}
use fuse_video_streamer.Base.{
  ℕ, Bool, true, false, Option, none, some, List, [], ◌∷◌, ◌++◌, length, if◌then◌else◌,
}
use fuse_video_streamer.Go.{failure, service_is_closed, enoent, explicit, Outcome, ok, err, panics}
use fuse_video_streamer.Client.{Client}
use fuse_video_streamer.Logger.{Os, Loggers, Logger, new_logger}
use fuse_video_streamer.Fuse.Registry.{NodeRef}
use fuse_video_streamer.Fuse.File.Node as File
use fuse_video_streamer.Fuse.Directory.Handle as Handle
use fuse_video_streamer.Fuse.Directory.{Service, Directory, Tree}
use fuse_video_streamer.Fuse.Directory.Services as Services

-- What the services work on: the nodes, the map of the loggers, and the disk.
pub record Making (R X : Type 0) : Type 0 where
  pub tree : Tree R
  pub loggers : Loggers
  pub disk : X

module _ {R X : Type 0} where
  abbrev pub with_tree : Making R X → Tree R → Making R X
  with_tree m t = record m { tree = t }

  -- A call that makes no logger.
  abbrev pub lift :
      {A : Type 0} → (Tree R → Outcome A × Tree R) → Making R X → Outcome A × Making R X
  lift f m = let (r, t) = f m.tree in (r, with_tree m t)

  -- `if err != nil { return nil, err }` behind a call.
  abbrev pub bind :
      {A B : Type 0}
      → Outcome A × Making R X
      → (A → Making R X → Outcome B × Making R X)
      → Outcome B × Making R X
  bind (ok a, m) f = f a m
  bind (err e, m) f = (err e, m)
  bind (panics p, m) f = (panics p, m)

  -- `if err != nil { panic(err) }` behind a call.
  abbrev pub or_panic : {A : Type 0} → Outcome A × Making R X → Outcome A × Making R X
  or_panic (ok a, m) = (ok a, m)
  or_panic (err e, m) = (panics explicit, m)
  or_panic (panics p, m) = (panics p, m)

module _ {R X : Type 0} (os : Os X) where
  -- `logger.NewLogger(service)`
  unfoldable pub log : String → Making R X → Outcome Logger × Making R X
  log service m =
      let ((r, loggers), x) = new_logger os service m.loggers m.disk in
      (r, record m { loggers = loggers; disk = x })

  -- `New()` of the directory handle service behind its test, with the counter of the handles.
  unfoldable pub make_directory_handle :
      ℕ → ℕ → Making R X → Outcome (Handle.Handle × ℕ) × Making R X
  make_directory_handle increment_id identifier m =
      bind (log "Directory Handle" m)
        (λ (l : Logger) m'. (ok (Handle.new_handle increment_id identifier), m'))

  abbrev pub append_handle :
      ℕ
      → Directory
      → Outcome (Handle.Handle × ℕ) × Making R X
      → (Outcome ℕ × Directory × ℕ) × Making R X
  append_handle increment_id d (ok (h, increment_id'), m) =
      ((ok (length d.handles), record d { handles = d.handles ++ h ∷ [] }, increment_id'), m)
  append_handle increment_id d (err e, m) = ((err e, d, increment_id), m)
  append_handle increment_id d (panics p, m) = ((panics p, d, increment_id), m)

  -- `Open` of a directory, whose handle service is never closed.
  unfoldable pub open_directory :
      ℕ → Directory → Making R X → (Outcome ℕ × Directory × ℕ) × Making R X
  open_directory increment_id d m =
      if d.closed
      then ((err enoent, d, increment_id), m)
      else append_handle increment_id d (make_directory_handle increment_id d.identifier m)

  abbrev pub opened_by :
      ℕ
      → File.Node
      → Outcome Logger × Making R X
      → (Outcome (Option ℕ) × File.Node × ℕ) × Making R X
  opened_by increment_id n (ok l, m) = (File.open_by increment_id n (some false), m)
  opened_by increment_id n (err e, m) = ((err e, n, increment_id), m)
  opened_by increment_id n (panics p, m) = ((panics p, n, increment_id), m)

  -- `New()` of the file handle service and what follows it in `Open` of the node.
  abbrev pub open_file_by :
      ℕ → File.Node → Making R X → Option Bool → (Outcome (Option ℕ) × File.Node × ℕ) × Making R X
  open_file_by increment_id n m (some false) = opened_by increment_id n (log "File Handle" m)
  open_file_by increment_id n m service = (File.open_by increment_id n service, m)

  -- `Open` of a file.
  unfoldable pub open_file :
      ℕ → File.Node → Making R X → (Outcome (Option ℕ) × File.Node × ℕ) × Making R X
  open_file increment_id n m =
      if n.closed
      then ((err enoent, n, increment_id), m)
      else open_file_by increment_id n m n.service

module _ {R X : Type 0} (os : Os X) (client : Client R) where
  -- `New(client)` of the factory of directory/node/service.
  unfoldable pub new_directory_node_service : Making R X → Outcome Service × Making R X
  new_directory_node_service m = lift (Services.new_service client) m

  -- `New(client, logger)` of the streamable node service, and of the file node service.
  abbrev pub make_streamable_node_service : Making R X → Outcome Service × Making R X
  make_streamable_node_service m = lift (Services.new_service client) m

  abbrev pub make_file_node_service : Making R X → Outcome Service × Making R X
  make_file_node_service m = lift (Services.new_service client) m

  -- `New(client)` of the factory of streamable/node/service.
  unfoldable pub new_streamable_node_service : Making R X → Outcome Service × Making R X
  new_streamable_node_service m =
      bind (log os "File Node Service" m) (λ (l : Logger) m'. make_streamable_node_service m')

  -- `New(client)` of the factory of file/node/service.
  unfoldable pub new_file_node_service : Making R X → Outcome Service × Making R X
  new_file_node_service m =
      bind (log os "File Node Service" m) (λ (l : Logger) m'. make_file_node_service m')

  -- The services of a new directory, and the directory.
  unfoldable pub with_services : ℕ → Service → Making R X → Outcome NodeRef × Making R X
  with_services identifier service m = bind (new_directory_node_service m) (λ d m1.
      bind (new_streamable_node_service m1) (λ s m2.
        bind (new_file_node_service m2)
          (λ f m3. lift (Services.add_directory client identifier service d s f) m3)))

  -- `New(identifier)` of the directory node service.
  unfoldable pub new_directory : Service → ℕ → Making R X → Outcome NodeRef × Making R X
  new_directory service identifier m =
      if service.closed
      then (err (failure service_is_closed), m)
      else bind (or_panic (log os "Root Node" m))
          (λ (l : Logger) m'. with_services identifier service m')

  -- `New(identifier)` of the streamable node service.
  unfoldable pub new_streamable : Service → ℕ → Making R X → Outcome NodeRef × Making R X
  new_streamable service identifier m =
      if service.closed
      then (err (failure service_is_closed), m)
      else bind (or_panic (log os "Root Node" m)) (λ (l : Logger) m'.
        lift
          (λ t.
            let (answer, r) = client.file_system.get_file_info t.remote identifier in
            Services.add_streamable client identifier service answer (record t { remote = r }))
          m')

  -- `New(identifier)` of the file node service.
  unfoldable pub new_file : Service → ℕ → Making R X → Outcome ℕ × Making R X
  new_file service identifier m =
      if service.closed
      then (err (failure service_is_closed), m)
      else bind (or_panic (log os "Root Node" m)) (λ (l : Logger) m'.
        lift
          (λ t.
            let (answer, r) = client.file_system.get_file_info t.remote identifier in
            Services.add_file client identifier service answer (record t { remote = r }))
          m')
