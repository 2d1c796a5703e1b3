-- ===== src/Program/Starting.antt =====
-- What the start of the program in main.go asks of the configuration.
use text.Mathlib.Text.{◌==◌ as str_eq}
use text.Mathlib.TextEquality.{eq_iff}
use fuse_video_streamer.Base.{◌≡◌, ◌≢◌, refl, inl, inr, List, [], ◌∷◌, Bool-cases, arith}
use fuse_video_streamer.Go.{Outcome, ok, err, panics, and_then}
use fuse_video_streamer.Config.{
  FileSystemProvider, Config, get, validate, validate_by, validate_servers, get_mount_point,
  get_volume_name,
}
use fuse_video_streamer.Fuse.FileSystem.{FileSystem, Session, new_file_system}
use fuse_video_streamer.Fuse.Server.{Server}
use fuse_video_streamer.Fuse.Service.{Kernel, make_server, new_server}
use fuse_video_streamer.Program.{start}

-- What `Validate` asks for.
abbrev pub IsValid : Config → Type 0
IsValid cfg = (cfg.mount_point ≢ "") × (cfg.volume_name ≢ "") × (cfg.file_servers ≢ [])

valid_servers : (ss : List FileSystemProvider) → validate_servers ss ≡ ok tt → ss ≢ []
valid_servers [] e q = absurd (cc)
valid_servers (s ∷ ss) e q = absurd (cc)

validate_by-IsValid : (cfg : Config) → validate_by cfg ≡ ok tt → IsValid cfg
validate_by-IsValid cfg e = elim (Bool-cases (str_eq cfg.mount_point "")) [
  | inl m ↦ absurd (ground (arith, e, m))
  | inr m ↦ elim (Bool-cases (str_eq cfg.volume_name "")) [
    | inl v ↦ absurd (ground (arith, e, m, v))
    | inr v ↦ (
      (λ q. cc (m, (eq_iff cfg.mount_point "").1 q)),
      (λ q. cc (v, (eq_iff cfg.volume_name "").1 q)),
      valid_servers cfg.file_servers (simp (m, v) at e),
    )
  ]
]

module _ {R W B U : Type 0} (kernel : Kernel U) (s : Session R W B) where
  mounted :
      (r : Outcome U) (v : Server (FileSystem × Session R W B) U)
      → and_then r (λ (u : U). ok (make_server u (new_file_system, s))) ≡ ok v
      → (u : U) × (r ≡ ok u) × (v ≡ make_server u (new_file_system, s))
  mounted (ok u) v e = (u, refl, cc)
  mounted (err x) v e = absurd (cc)
  mounted (panics p) v e = absurd (cc)

  behind_validate :
      (cfg : Config) (r : Outcome (Unit {0})) (v : Server (FileSystem × Session R W B) U)
      → validate_by cfg ≡ r
      → and_then r (λ (x : Unit {0}). new_server kernel s cfg.mount_point cfg.volume_name) ≡ ok v
      → IsValid cfg
        × ((u : U) × (kernel.mount cfg.mount_point cfg.volume_name ≡ ok u)
            × (v ≡ make_server u (new_file_system, s)))
  unfolding new_server
  behind_validate cfg (ok x) v q e =
      (validate_by-IsValid cfg q, mounted (kernel.mount cfg.mount_point cfg.volume_name) v e)
  behind_validate cfg (err x) v q e = absurd (cc)
  behind_validate cfg (panics p) v q e = absurd (cc)

  -- If the program starts a server with a configuration that does not change, then its mount point
  -- and its volume name are not empty and it has file servers, the mount at that mount point under
  -- that volume name succeeded, and the server is on that mount, with an open file system.
  pub start-IsValid :
      (cfg : Config) (v : Server (FileSystem × Session R W B) U)
      → start kernel s (ok cfg) (ok cfg) (ok cfg) ≡ ok v
      → IsValid cfg
        × ((u : U) × (kernel.mount cfg.mount_point cfg.volume_name ≡ ok u)
            × (v ≡ make_server u (new_file_system, s)))
  unfolding start validate get get_mount_point get_volume_name
  start-IsValid cfg v e = behind_validate cfg (validate_by cfg) v refl e
