-- ===== src/Fuse/Server.antt =====
-- filesystem/server/provider/fuse/main.go: the end of the server. The file system that it serves is
-- a parameter, and so is the FUSE library: `U` is the state of the mount.
pub mod Unmount
pub mod Ending
pub mod Serving
use fuse_video_streamer.Base.{ℕ, zero, suc, Bool, true, false, Option, none, some, if◌then◌else◌}
use fuse_video_streamer.Go.{
  GoError, wrapped, max_tries_to_unmount, Error, Panic, nil_dereference, Ended, returns, waits,
}

-- `fuse.Unmount(mountpoint)`, whether the text of an error ends in "resource busy", and
-- `connection.Close()`.
pub record Mount (U : Type 0) : Type 0 where
  pub try_unmount : U → Error × U
  pub is_busy : GoError → Bool
  pub close_connection : U → Error × U

-- `file_system` and `has_connection`: what the pointers of the struct point to, if they are not nil.
pub record Server (F U : Type 0) : Type 0 where
  pub file_system : Option F
  pub has_connection : Bool
  pub mount : U

module _ {U : Type 0} (mount : Mount U) where
  -- An iteration: success and an error that is not "resource busy" end the loop.
  abbrev pub after_try : Error × U → Option (Error × U) → Option (Error × U)
  after_try (none, u) rest = some (none, u)
  after_try (some e, u) rest =
      if mount.is_busy e then rest else some (some (wrapped max_tries_to_unmount e), u)

  -- `unmount` with so many iterations at most; `none` where they are not enough.
  unfoldable pub unmount : ℕ → U → Option (Error × U)
  unmount zero u = none
  unmount (suc fuel) u =
      let rest = unmount fuel (mount.try_unmount u).1 in after_try (mount.try_unmount u) rest

-- How far `Close` came: back with nil, not back yet, or a panic.
pub data CloseResult (F U : Type 0) : Type 0 where
  closes : Server F U → CloseResult F U
  runs : CloseResult F U
  crashes : Panic → CloseResult F U

module _ {F U : Type 0} (mount : Mount U) (close_file_system : F → Ended F) where
  -- Errors are only logged.
  abbrev pub after_unmount : Server F U → Option (Error × U) → CloseResult F U
  after_unmount s none = runs
  after_unmount s (some (e, u)) =
      if s.has_connection
      then closes (record s {
        file_system = none;
        has_connection = false;
        mount = (mount.close_connection u).1;
      })
      else closes (record s { file_system = none; mount = u })

  -- Behind `fileSystem.Close()`. What the closed file system is left as goes with its pointer.
  abbrev pub after_file_system : ℕ → Server F U → Ended F → CloseResult F U × Option F
  after_file_system fuel s waits = (runs, none)
  after_file_system fuel s (Ended.crashes p) = (crashes p, none)
  after_file_system fuel s (returns f) = (after_unmount s (unmount mount fuel s.mount), some f)

  -- The file system is closed first: of a nil one that panics.
  abbrev pub close_by : ℕ → Server F U → Option F → CloseResult F U × Option F
  close_by fuel s none = (crashes nil_dereference, none)
  close_by fuel s (some f) = after_file_system fuel s (close_file_system f)

  -- `server.Close()`, with so many iterations for the loop.
  unfoldable pub close : ℕ → Server F U → CloseResult F U × Option F
  close fuel s = close_by fuel s s.file_system
