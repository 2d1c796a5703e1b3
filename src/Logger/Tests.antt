-- ===== src/Logger/Tests.antt =====
-- The theorem about the loggers, at a concrete input.
use fuse_video_streamer.Base.{ℕ, ◌+◌, ◌≡◌, refl, none, [], ◌∷◌}
use fuse_video_streamer.Go.{ok}
use Prim.Native.String.{◌++◌}
use fuse_video_streamer.Logger.{Os, Loggers, Logger, create_logger, get_logger, new_logger, close}
use fuse_video_streamer.Logger.Cached.{close_keeps_logger}

-- A disk on which every file that is opened gets the next number.
abbrev os : Os ℕ
os = record {
  mkdir_all = λ x path. (none, x);
  open_file = λ x path. (ok x, x + 1);
  join = λ dir name. dir ++ "/" ++ name;
  dir = λ path. path;
  to_lower = λ name. name;
  replace_all = λ text old new. text;
}

abbrev opened : Loggers
opened = ("fuse.log", 7) ∷ []

abbrev fuse : Logger
fuse = record { logger = 7; service = "fuse" }

close_keeps_logger_example :
    new_logger os "fuse" (close fuse opened) 9 ≡ ((ok fuse, close fuse opened), 9)
unfolding new_logger get_logger create_logger
close_keeps_logger_example = close_keeps_logger os "fuse" [] opened 7 8 9 fuse refl (λ e. cc)
