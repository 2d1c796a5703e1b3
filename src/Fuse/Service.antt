-- ===== src/Fuse/Service.antt =====
-- filesystem/server/provider/fuse/service/main.go, and `New` of filesystem/server/provider/fuse/main.go:
-- the making of a server. `fuse.Mount` is a parameter.
use Prim.Native.String.{String}
use fuse_video_streamer.Base.{true, some}
use fuse_video_streamer.Go.{Outcome, ok, and_then}
use fuse_video_streamer.Fuse.FileSystem.{FileSystem, Session, new_file_system}
use fuse_video_streamer.Fuse.Server.{Server}

-- `fuse.Mount` at a mount point with options for a volume name; the other options are constants.
pub record Kernel (U : Type 0) : Type 0 where
  pub mount : String → String → Outcome U

-- `New(mountpoint, connection, fileSystem, logger)`
unfoldable pub make_server : {F U : Type 0} → U → F → Server F U
make_server u f = record { file_system = some f; has_connection = true; mount = u }

-- `New(mountpoint, volumeName)` of the service, with the session that the nodes will be made in. An
-- error of the mount ends the process by `logger.Fatal`.
unfoldable pub new_server :
    {R W B U : Type 0}
    → Kernel U
    → Session R W B
    → String
    → String
    → Outcome (Server (FileSystem × Session R W B) U)
unfolding make_server new_file_system
new_server {R} {W} {B} {U} kernel s mountpoint volume_name =
    and_then (kernel.mount mountpoint volume_name)
      (λ (u : U). ok (make_server u (new_file_system, s)))
