-- ===== src/Fuse/Server/Ending.antt =====
-- `Close` of filesystem/server/provider/fuse/main.go, with the file system that it serves.
use mathlib.Core.Path.{subst}
use fuse_video_streamer.Base.{ℕ, suc, ◌<◌, ◌≡◌, sym, Bool, false, Option, none, some}
use fuse_video_streamer.Go.{Ended, returns, waits}
use fuse_video_streamer.Stream.External.{Http, Ring}
use fuse_video_streamer.Fuse.FileSystem.{FileSystem, Session, Runtime}
use fuse_video_streamer.Fuse.FileSystem as Whole
use fuse_video_streamer.Fuse.FileSystem.Closing.{IsFair, IsDown, Down}
use fuse_video_streamer.Fuse.FileSystem.Reach.{Reach}
use fuse_video_streamer.Fuse.FileSystem.Reached.{reached-Down}
use fuse_video_streamer.Fuse.Server.{
  Mount, Server, CloseResult, closes, runs, crashes, after_file_system, close_by, close,
}
use fuse_video_streamer.Fuse.Server.Unmount.{
  tried, Busy, IsLast, disconnected, IsShut, after_file_system-IsShut,
}

module _ {R W B U : Type 0} (http : Http W) (ring : Ring B) (rt : Runtime) (mount : Mount U) where
  -- `Close` of the file system of the server, with the nodes and the streams.
  abbrev pub close_served : FileSystem × Session R W B → Ended (FileSystem × Session R W B)
  close_served (fs, s) = Whole.close http ring rt fs s

  -- The server holds nothing, its mount is that one, and the file system is down, or a `Close` of a
  -- stream has not returned.
  abbrev pub Finished :
      U
      → Session R W B
      → CloseResult (FileSystem × Session R W B) U × Option (FileSystem × Session R W B)
      → Type 0
  Finished u s (runs, none) = Unit {0}
  Finished u s (closes v, some (fs, s')) =
      (v.file_system ≡ none) × (v.has_connection ≡ false) × (v.mount ≡ u) × IsDown http ring s fs s'
  Finished u s _ = ⊥

  module _ (k fuel : ℕ) (v : Server (FileSystem × Session R W B) U)
      (busy : (i : ℕ) → i < k → Busy mount (mount.try_unmount (tried mount i v.mount)).0)
      (last : IsLast mount (mount.try_unmount (tried mount k v.mount)).0) (enough : k < fuel) where
    -- The mount behind the tries and the Close of the connection.
    abbrev pub left : U
    left = disconnected mount v.has_connection (tried mount (suc k) v.mount)

    finish :
        (s s' : Session R W B) (fs : FileSystem) (c : CloseResult (FileSystem × Session R W B) U)
        → IsShut mount close_served left c
        → IsDown http ring s fs s'
        → Finished left s (c, some (fs, s'))
    finish s s' fs (closes u) (f, h, m) d = (f, h, m, d)
    finish s s' fs runs h d = absurd h
    finish s s' fs (crashes p) h d = absurd h

    after-Finished :
        (s : Session R W B) (r : Ended (FileSystem × Session R W B))
        → Down http ring s r
        → Finished left s (after_file_system mount close_served fuel v r)
    after-Finished s waits d = tt
    after-Finished s (Ended.crashes p) d = absurd d
    after-Finished s (returns (fs, s')) d =
        finish s s' fs _
          (after_file_system-IsShut mount close_served k fuel v (fs, s') busy last enough) d

    -- On a server that still has its file system, which is open and has its root node service, in
    -- a session that requests reach: if the runtime is fair, and after some busy tries to unmount
    -- one succeeds or fails otherwise, then Close with more iterations than the busy tries never
    -- panics, and either a Close of a stream in it has not returned, or it returns, the server
    -- holds neither a file system nor a connection, its mount is what the tries and the Close of the
    -- connection left, and the file system and all nodes are closed.
    pub close-Finished :
        (fs : FileSystem) (s : Session R W B) (c : Bool)
        → v.file_system ≡ some (fs, s)
        → Reach http ring s
        → IsFair rt
        → fs.closed ≡ false
        → fs.service ≡ some c
        → Finished left s (close mount close_served fuel v)
    unfolding close
    close-Finished fs s c has reached fair running served =
        subst (λ o. Finished left s (close_by mount close_served fuel v o)) (sym has)
          (after-Finished s (close_served (fs, s))
            (reached-Down http ring rt c fs s reached fair running served))
