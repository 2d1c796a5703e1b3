-- ===== src/Fuse/Directory/Services.antt =====
-- The node services under filesystem/server/provider/fuse/filesystem: directory/node/service/main.go,
-- streamable/node/service/main.go and file/node/service/main.go.
pub mod Closed
use Prim.Native.String.{String}
use fuse_video_streamer.Base.{ℕ, true, false, none, some, [], ◌∷◌, ◌++◌, length, if◌then◌else◌}
use fuse_video_streamer.Go.{failure, service_is_closed, Error, Outcome, ok, err, panics}
use fuse_video_streamer.Client.{Client}
use fuse_video_streamer.Fuse.Registry.{
  NodeRef, directory, streamable, file, Instances, get_instance, add,
}
use fuse_video_streamer.Fuse.File.Node.{new_node}
use fuse_video_streamer.Fuse.Streamable.Node as Streamable
use fuse_video_streamer.Fuse.Directory.{Service, Tree}

-- `Close` of a service: `service.closed.CompareAndSwap(false, true)`, and no error either way.
unfoldable pub close_service : Service → Error × Service
close_service service =
    if service.closed then (none, service) else (none, record service { closed = true })

module _ {R : Type 0} (client : Client R) where
  abbrev pub service_of : Outcome (String × Instances) × R → Tree R → Outcome Service × Tree R
  service_of (ok (name, instances), r) t = (
    ok (record { registry = name; closed = false }),
    record t { remote = r; instances = instances },
  )
  service_of (err e, r) t = (err e, record t { remote = r })
  service_of (panics p, r) t = (panics p, record t { remote = r })

  -- `New(client)` of each of the three services.
  unfoldable pub new_service : Tree R → Outcome Service × Tree R
  new_service t = service_of (get_instance client t.instances t.remote) t

  -- `if err != nil { return nil, err }` behind a call, with the state that it left.
  abbrev pub bind_tree :
      {A B : Type 0} → Outcome A × Tree R → (A → Tree R → Outcome B × Tree R) → Outcome B × Tree R
  bind_tree (ok a, t) f = f a t
  bind_tree (err e, t) f = (err e, t)
  bind_tree (panics p, t) f = (panics p, t)

  abbrev pub add_directory :
      ℕ → Service → Service → Service → Service → Tree R → Outcome NodeRef × Tree R
  add_directory identifier service d s f t =
      let i = length t.directories in
      (
        ok (directory i),
        record t {
          directories =
              t.directories
              ++ (record {
                identifier = identifier;
                directory_node_service = d;
                streamable_node_service = s;
                file_node_service = f;
                handles = [];
                closed = false;
              })
                ∷ [];
          instances = add (directory i) t.instances service.registry;
        },
      )

  -- `directoryNodeService.New(identifier)`
  unfoldable pub new_directory : Service → ℕ → Tree R → Outcome NodeRef × Tree R
  new_directory service identifier t =
      if service.closed
      then (err (failure service_is_closed), t)
      else bind_tree (new_service t) (λ d t1.
        bind_tree (new_service t1)
          (λ s t2. bind_tree (new_service t2) (λ f t3. add_directory identifier service d s f t3)))

  abbrev pub add_streamable : ℕ → Service → ℕ × Error → Tree R → Outcome NodeRef × Tree R
  add_streamable identifier service (size, some e) t = (err e, t)
  add_streamable identifier service (size, none) t =
      let i = length t.streamables in
      (
        ok (streamable i),
        record t {
          streamables = t.streamables ++ Streamable.new_node identifier size ∷ [];
          instances = add (streamable i) t.instances service.registry;
        },
      )

  -- `streamableNodeService.New(identifier)`
  unfoldable pub new_streamable : Service → ℕ → Tree R → Outcome NodeRef × Tree R
  new_streamable service identifier t =
      if service.closed
      then (err (failure service_is_closed), t)
      else let (answer, r) = client.file_system.get_file_info t.remote identifier in
        add_streamable identifier service answer (record t { remote = r })

  abbrev pub add_file : ℕ → Service → ℕ × Error → Tree R → Outcome ℕ × Tree R
  add_file identifier service (size, some e) t = (err e, t)
  add_file identifier service (size, none) t =
      let i = length t.files in
      (
        ok i,
        record t {
          files = t.files ++ new_node identifier size ∷ [];
          instances = add (file i) t.instances service.registry;
        },
      )

  -- `fileNodeService.New(identifier)`
  unfoldable pub new_file : Service → ℕ → Tree R → Outcome ℕ × Tree R
  new_file service identifier t =
      if service.closed
      then (err (failure service_is_closed), t)
      else let (answer, r) = client.file_system.get_file_info t.remote identifier in
        add_file identifier service answer (record t { remote = r })
