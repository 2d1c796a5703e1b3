-- ===== src/Fuse/Server/Serving.antt =====
-- `Serve` of filesystem/server/provider/fuse/main.go, with the logger of logger/main.go. What the FUSE
-- library does until its Serve returns is an argument.
use fuse_video_streamer.Base.{◌≡◌, none, some}
use fuse_video_streamer.Go.{GoError, Error}
use fuse_video_streamer.Logger.{Os, Logger}
use fuse_video_streamer.Logger.Lines.{
  Output, Run, goes_on, exits, fatal_level, with_error, then_run, info, fatal, fatal_prints_nothing,
}

module _ {X : Type 0} (os : Os X) (output : Output X) (l : Logger) where
  abbrev pub after_serve : Error × X → Run X
  after_serve (none, x) = info os output l "Filesystem shutdown" x
  after_serve (some e, x) = fatal os output l "failed to serve filesystem" e x

  -- `server.Serve()`
  unfoldable pub serve : (X → Error × X) → X → Run X
  serve library x =
      then_run (info os output l "Serving filesystem" x) (λ x'. after_serve (library x'))

  -- Where the library fails while zap's Fatal ends the process, Serve ends it, with no line on the
  -- terminal.
  failed_serve_ends :
      (library : X → Error × X) (x x1 x2 x3 : X) (e : GoError)
      → info os output l "Serving filesystem" x ≡ goes_on x1
      → library x1 ≡ (some e, x2)
      → output.write fatal_level l.logger (with_error os output "failed to serve filesystem" e) x2
        ≡ exits x3
      → serve library x ≡ exits x3
  unfolding serve
  failed_serve_ends library x x1 x2 x3 e begun failed ends =
      rw (begun, failed)
        (fatal_prints_nothing os output l "failed to serve filesystem" e x2 x3 ends)
