-- ===== src/Logger/Lines.antt =====
-- The lines that the loggers of logger/main.go write: Info, Warn, Error, Fatal and Debug.
use Prim.Native.String.{String, ◌++◌}
use fuse_video_streamer.Base.{ℕ, ◌≡◌, refl}
use fuse_video_streamer.Go.{GoError}
use fuse_video_streamer.Logger.{Os, Logger}

pub data Level : Type 0 where
  info_level warn_level error_level fatal_level debug_level : Level

-- What a call leaves: the state of the files and the terminal, or of a process that has ended.
pub data Run (X : Type 0) : Type 0 where
  goes_on exits : X → Run X

-- The methods of `zap.SugaredLogger` on the logger with a number, `log.Println` and `log.Fatal`, and
-- what `%v` prints of an error.
pub record Output (X : Type 0) : Type 0 where
  pub write : Level → ℕ → String → X → Run X
  pub println : String → X → X
  pub print_fatal : String → X → Run X
  pub text_of : GoError → String

-- What follows a call.
abbrev pub then_run : {X : Type 0} → Run X → (X → Run X) → Run X
then_run (goes_on x) f = f x
then_run (exits x) f = exits x

-- The format of a line for the terminal.
abbrev pub formatted : String → String → String → String
formatted level service message = level ++ "\t" ++ service ++ ":\t" ++ message

module _ {X : Type 0} (os : Os X) (output : Output X) where
  -- `strings.ReplaceAll(message, "\t", " ")`
  abbrev pub without_tabs : String → String
  without_tabs message = os.replace_all message "\t" " "

  abbrev pub with_error : String → GoError → String
  with_error message e = message ++ ": " ++ output.text_of e

  abbrev pub written : Level → String → Logger → String → X → Run X
  written level name l message x =
      then_run (output.write level l.logger (without_tabs message) x)
        (λ x'. goes_on (output.println (formatted name l.service message) x'))

  unfoldable pub info : Logger → String → X → Run X
  info l message x = written info_level "INFO" l message x

  unfoldable pub warn : Logger → String → X → Run X
  warn l message x = written warn_level "WARN" l message x

  unfoldable pub debug : Logger → String → X → Run X
  debug l message x = written debug_level "DEBUG" l message x

  unfoldable pub error : Logger → String → GoError → X → Run X
  error l message e x =
      then_run (output.write error_level l.logger (with_error message e) x)
        (λ x'. goes_on (output.println (formatted "ERROR" l.service (with_error message e)) x'))

  unfoldable pub fatal : Logger → String → GoError → X → Run X
  fatal l message e x =
      then_run (output.write fatal_level l.logger (with_error message e) x)
        (output.print_fatal (formatted "FATAL" l.service (with_error message e)))

  -- The Fatal of zap ends the process, so that the line of Fatal never comes to the terminal: what is
  -- left is what the Fatal of zap left.
  pub fatal_prints_nothing :
      (l : Logger) (message : String) (e : GoError) (x x' : X)
      → output.write fatal_level l.logger (with_error message e) x ≡ exits x'
      → fatal l message e x ≡ exits x'
  unfolding fatal
  fatal_prints_nothing l message e x x' ends = rw ends refl
