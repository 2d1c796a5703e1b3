-- ===== src/Program.antt =====
-- main.go: the program up to the wait for a signal, and what follows it. Serving the kernel is what the
-- library does in between.
pub mod Starting
pub mod Ending
mod Tests
use Prim.Native.String.{String}
use fuse_video_streamer.Base.{ℕ, Option}
use fuse_video_streamer.Go.{Outcome, and_then, Ended}
use fuse_video_streamer.Config.{Config, validate, get_mount_point, get_volume_name}
use fuse_video_streamer.Fuse.FileSystem.{FileSystem, Session}
use fuse_video_streamer.Fuse.Server.{Mount, Server, CloseResult, close}
use fuse_video_streamer.Fuse.Service.{Kernel, new_server}

module _ {R W B U : Type 0} where
  -- The configuration is read three times.
  unfoldable pub start :
      Kernel U
      → Session R W B
      → Outcome Config
      → Outcome Config
      → Outcome Config
      → Outcome (Server (FileSystem × Session R W B) U)
  start kernel s first second third = and_then (validate first) (λ (valid : Unit {0}).
      and_then (get_mount_point second) (λ (mountpoint : String).
        and_then (get_volume_name third)
          (λ (volume_name : String). new_server kernel s mountpoint volume_name)))

-- `fileSystem.Close()` behind the signal.
unfoldable pub stop :
    {F U : Type 0} → Mount U → (F → Ended F) → ℕ → Server F U → CloseResult F U × Option F
stop mount close_file_system fuel s = close mount close_file_system fuel s
