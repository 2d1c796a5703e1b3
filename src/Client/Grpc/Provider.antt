-- ===== src/Client/Grpc/Provider.antt =====
-- filesystem/client/provider/grpc/main.go: one configured file system. `grpc.NewClient`, with the stubs
-- over its connection, is a parameter.
use Prim.Native.String.{String}
use fuse_video_streamer.Go.{Outcome, ok, and_then}
use fuse_video_streamer.Config.{FileSystemProvider}
use fuse_video_streamer.Client.{Client}
use fuse_video_streamer.Client.Grpc.{Api, file_system}

module _ {R : Type 0} (dial : String → Outcome (Api R)) where
  -- `New(entry)`. The target is kept, and read nowhere.
  unfoldable pub new_provider : FileSystemProvider → Outcome (Client R)
  new_provider entry =
      and_then (dial entry.target)
        (λ (api : Api R). ok (record { name = entry.name; file_system = file_system api }))
