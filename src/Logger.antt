-- ===== src/Logger.antt =====
-- logger/main.go: the loggers, one for each file name. What the standard library and zap do with a
-- file is a parameter; a zap logger is known by the number of its file. The lines that are written
-- are left out.
pub mod Cached
pub mod Lines
mod Tests
use Prim.Native.String.{String, ◌++◌}
use text.Mathlib.Text.{◌==◌ as str_eq}
use fuse_video_streamer.Base.{ℕ, true, false, Option, none, some, List, [], ◌∷◌, if◌then◌else◌}
use fuse_video_streamer.Go.{Error, Outcome, ok, err, panics}

-- `os.MkdirAll`, `os.OpenFile`, `filepath.Join`, `filepath.Dir`, `strings.ToLower` and
-- `strings.ReplaceAll`, on the state of the disk.
pub record Os (X : Type 0) : Type 0 where
  pub mkdir_all : X → String → Error × X
  pub open_file : X → String → Outcome ℕ × X
  pub join : String → String → String
  pub dir : String → String
  pub to_lower : String → String
  pub replace_all : String → String → String → String

-- The map `loggers`.
abbrev pub Loggers : Type 0
Loggers = List (String × ℕ)

abbrev pub find : Loggers → String → Option ℕ
find [] name = none
find ((other, l) ∷ rest) name = if str_eq other name then some l else find rest name

-- `delete(loggers, name)`
unfoldable pub delete : Loggers → String → Loggers
delete [] name = []
delete ((other, l) ∷ rest) name =
    let rest' = delete rest name in if str_eq other name then rest' else (other, l) ∷ rest'

pub record Logger : Type 0 where
  pub logger : ℕ
  pub service : String

abbrev pub log_dir : String
log_dir = "logs"

-- `Close()`. The file is synced and stays open.
unfoldable pub close : Logger → Loggers → Loggers
close instance_ loggers = delete loggers instance_.service

module _ {X : Type 0} (os : Os X) where
  abbrev pub open_log : String → Error × X → Outcome ℕ × X
  open_log path (some e, x) = (err e, x)
  open_log path (none, x) = os.open_file x path

  -- `createLogger(fileName)`
  unfoldable pub create_logger : String → X → Outcome ℕ × X
  create_logger file_name x =
      let path = os.join log_dir file_name in open_log path (os.mkdir_all x (os.dir path))

  abbrev pub keep_logger : String → Loggers → Outcome ℕ × X → (Outcome ℕ × Loggers) × X
  keep_logger file_name loggers (ok l, x) = ((ok l, (file_name, l) ∷ loggers), x)
  keep_logger file_name loggers (err e, x) = ((err e, loggers), x)
  keep_logger file_name loggers (panics p, x) = ((panics p, loggers), x)

  abbrev pub get_by : String → Loggers → X → Option ℕ → (Outcome ℕ × Loggers) × X
  get_by file_name loggers x (some l) = ((ok l, loggers), x)
  get_by file_name loggers x none = keep_logger file_name loggers (create_logger file_name x)

  -- `getLogger(fileName)`
  unfoldable pub get_logger : String → Loggers → X → (Outcome ℕ × Loggers) × X
  get_logger file_name loggers x = get_by file_name loggers x (find loggers file_name)

  -- The key of a service in the map.
  abbrev pub file_name_of : String → String
  file_name_of service = os.to_lower (os.replace_all service " " "_") ++ ".log"

  abbrev pub named : String → (Outcome ℕ × Loggers) × X → (Outcome Logger × Loggers) × X
  named service ((ok l, loggers), x) = ((ok (record { logger = l; service = service }), loggers), x)
  named service ((err e, loggers), x) = ((err e, loggers), x)
  named service ((panics p, loggers), x) = ((panics p, loggers), x)

  -- `NewLogger(service)`
  unfoldable pub new_logger : String → Loggers → X → (Outcome Logger × Loggers) × X
  new_logger service loggers x = named service (get_logger (file_name_of service) loggers x)
