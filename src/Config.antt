-- ===== src/Config.antt =====
-- config/main.go. The file and the decoder of gopkg.in/yaml.v3 are a parameter: what the decoding of
-- config.yml gave, or an error of either.
use Prim.Native.String.{String}
use text.Mathlib.Text.{◌==◌ as str_eq}
use fuse_video_streamer.Base.{List, [], ◌∷◌, if◌then◌else◌}
use fuse_video_streamer.Go.{Outcome, ok, err, panics, explicit, and_then}

pub record FileSystemProvider : Type 0 where
  pub name : String
  pub target : String

pub record Config : Type 0 where
  pub mount_point : String
  pub volume_name : String
  pub file_servers : List FileSystemProvider

-- `get()`, which panics with the error of the file or of the decoder.
unfoldable pub get : Outcome Config → Outcome Config
get (ok cfg) = ok cfg
get (err e) = panics explicit
get (panics p) = panics p

-- `if len(cfg.FileServers) == 0 { panic(…) }`
abbrev pub validate_servers : List FileSystemProvider → Outcome (Unit {0})
validate_servers [] = panics explicit
validate_servers (s ∷ ss) = ok tt

abbrev pub validate_by : Config → Outcome (Unit {0})
validate_by cfg =
    if str_eq cfg.mount_point ""
    then panics explicit
    else if str_eq cfg.volume_name ""
    then panics explicit
    else validate_servers cfg.file_servers

-- `Validate()`
unfoldable pub validate : Outcome Config → Outcome (Unit {0})
validate file = and_then (get file) validate_by

unfoldable pub get_mount_point : Outcome Config → Outcome String
get_mount_point file = and_then (get file) (λ (cfg : Config). ok cfg.mount_point)

unfoldable pub get_volume_name : Outcome Config → Outcome String
get_volume_name file = and_then (get file) (λ (cfg : Config). ok cfg.volume_name)

unfoldable pub get_file_servers : Outcome Config → Outcome (List FileSystemProvider)
get_file_servers file = and_then (get file) (λ (cfg : Config). ok cfg.file_servers)
