-- ===== src/Fuse/Symlink.antt =====
-- filesystem/server/provider/fuse/filesystem/symlink/main.go. `filepath.Abs` and `filepath.Join` are a
-- parameter.
use Prim.Native.String.{String}
use fuse_video_streamer.Base.{ℕ, none, some, List, [], ◌∷◌}
use fuse_video_streamer.Go.{enoent, Error, Outcome, ok, err, panics}
use fuse_video_streamer.Config.{Config, get_mount_point}
use fuse_video_streamer.Client.{Client, mode_symlink}

pub record Paths : Type 0 where
  pub join : List String → String
  pub abs : String → String × Error

pub record Symlink (R : Type 0) : Type 0 where
  pub client : Client R
  pub identifier : ℕ

abbrev pub absolute : String × Error → Outcome String
absolute (path, none) = ok path
absolute (path, some e) = err enoent

module _ {R : Type 0} where
  -- The mode.
  unfoldable pub attr : Symlink R → Outcome ℕ
  attr s = ok mode_symlink

  abbrev pub under_mount : Paths → Symlink R → String → Outcome String → Outcome String
  under_mount paths s link (ok mount) =
      absolute (paths.abs (paths.join (mount ∷ s.client.name ∷ link ∷ [])))
  under_mount paths s link (err e) = err e
  under_mount paths s link (panics p) = panics p

  abbrev pub linked : Paths → Outcome Config → Symlink R → String × Error → Outcome String
  linked paths config s (link, some e) = err enoent
  linked paths config s (link, none) = under_mount paths s link (get_mount_point config)

  -- `Readlink`. The mount point is read from the configuration each time.
  unfoldable pub read_link : Paths → Outcome Config → Symlink R → R → Outcome String × R
  read_link paths config s r =
      let (answer, r') = s.client.file_system.read_link r s.identifier in
      (linked paths config s answer, r')
