-- ===== src/Program/Ending.antt =====
-- main.go from its start to its end: the requests of the kernel stand between `go fileSystem.Serve()`
-- and `fileSystem.Close()`.
use mathlib.Core.Path.{subst}
use fuse_video_streamer.Base.{ℕ, [], suc, ◌<◌, ◌≡◌, refl, ap, false, Option, none, some}
use fuse_video_streamer.Go.{ok}
use fuse_video_streamer.Config.{Config}
use fuse_video_streamer.Stream.External.{Http, Ring}
use fuse_video_streamer.Fuse.Streamable.Handle.{World}
use fuse_video_streamer.Fuse.FileSystem.{FileSystem, Session, Runtime, new_file_system}
use fuse_video_streamer.Fuse.FileSystem.Closing.{IsFair}
use fuse_video_streamer.Fuse.FileSystem.Reach.{no_nodes, Step, Reach, begins, goes_on}
use fuse_video_streamer.Fuse.Server.{Mount, Server}
use fuse_video_streamer.Fuse.Server.Unmount.{tried, Busy, IsLast, disconnected}
use fuse_video_streamer.Fuse.Server.Ending.{close_served, Finished, close-Finished}
use fuse_video_streamer.Fuse.Service.{Kernel, make_server}
use fuse_video_streamer.Program.{start, stop}
use fuse_video_streamer.Program.Starting.{start-IsValid}

-- What is served, with another session in the place of the first.
abbrev pub in_session :
    {R W B : Type 0}
    → Session R W B
    → Option (FileSystem × Session R W B)
    → Option (FileSystem × Session R W B)
in_session s none = none
in_session s (some (fs, before)) = some (fs, s)

abbrev pub with_session :
    {R W B U : Type 0}
    → Session R W B
    → Server (FileSystem × Session R W B) U
    → Server (FileSystem × Session R W B) U
with_session s v = record v { file_system = in_session s v.file_system }

module _ {R W B : Type 0} (http : Http W) (ring : Ring B) where
  -- Before the first request.
  abbrev pub first_session : R → World W B → ℕ → ℕ → Session R W B
  first_session r w i d = record { tree = no_nodes r i d; world = w; roots = [] }

  -- The requests lead from one session to another.
  pub data Leads (s : Session R W B) : Session R W B → Type 0 where
    stays : Leads s s
    asks : {t u : Session R W B} → Leads s t → Step http ring t u → Leads s u

  Leads-Reach : {s t : Session R W B} → Reach http ring s → Leads s t → Reach http ring t
  Leads-Reach reached stays = reached
  Leads-Reach reached (asks before step) = goes_on (Leads-Reach reached before) step

  -- If the program starts a server with a configuration that does not change, and requests lead
  -- from the first session, without nodes, to another, then, if the runtime is fair, after some
  -- busy tries to unmount one succeeds or fails otherwise, and no request comes in behind the
  -- signal, the Close behind the signal with more iterations than the busy tries never panics, and
  -- either a Close of a stream in it has not returned, or it returns, the server holds neither a
  -- file system nor a connection, its mount is what those tries, the last one and then the Close
  -- of the connection leave of the mount of the start, and the file system, all nodes and all
  -- their handles are closed.
  pub program_ends :
      {U : Type 0} (kernel : Kernel U) (rt : Runtime) (mount : Mount U) (cfg : Config) (r : R)
      (w : World W B) (increment_id directory_handle_id : ℕ)
      (v : Server (FileSystem × Session R W B) U) (s : Session R W B) (k fuel : ℕ)
      → start kernel (first_session r w increment_id directory_handle_id) (ok cfg) (ok cfg) (ok cfg)
        ≡ ok v
      → Leads (first_session r w increment_id directory_handle_id) s
      → IsFair rt
      → ((i : ℕ) → i < k → Busy mount (mount.try_unmount (tried mount i v.mount)).0)
      → IsLast mount (mount.try_unmount (tried mount k v.mount)).0
      → k < fuel
      → Finished http ring rt mount
          (mount.close_connection (tried mount (suc k) v.mount)).1
          s
          (stop mount (close_served http ring rt mount) fuel (with_session s v))
  unfolding stop make_server new_file_system
  program_ends kernel rt mount cfg r w i d v s k fuel starts leads fair busy last enough =
      let (valid, (u, mounted, made)) = start-IsValid kernel (first_session r w i d) cfg v starts in
      let connected = ap Server.has_connection made in
      subst
        (λ b.
          Finished http ring rt mount (disconnected mount b (tried mount (suc k) v.mount)) s
            (stop mount (close_served http ring rt mount) fuel (with_session s v)))
        connected
        (close-Finished http ring rt mount k fuel (with_session s v) busy last enough
          new_file_system s false (ap (λ x. in_session s (Server.file_system x)) made)
          (Leads-Reach (begins r w i d) leads) fair refl refl)
