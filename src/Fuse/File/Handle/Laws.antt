-- ===== src/Fuse/File/Handle/Laws.antt =====
-- Theorems about a closed handle of
-- filesystem/server/provider/fuse/filesystem/file/handle/main.go.
use fuse_video_streamer.Base.{ℕ, ◌≡◌, true, some, List, arith}
use fuse_video_streamer.Base.Int.{ℤ}
use fuse_video_streamer.Go.{enoent, err}
use fuse_video_streamer.Client.{Client}
use fuse_video_streamer.Fuse.File.Handle.{
  Handle, read_all, read, write, release, flush, fsync, close,
}

module _ {R : Type 0} (client : Client R) where
  -- Every operation of the handle is refused, and the remote file system is not asked.
  abbrev pub Refuses : Handle → Type 0
  Refuses h =
      ((r : R) → read_all client r h ≡ (err enoent, r))
      × ((r : R) (offset size : ℤ) → read client r h offset size ≡ (err enoent, r))
      × ((r : R) (offset : ℤ) (bytes : List ℕ) → write client r h offset bytes ≡ (err enoent, r))
      × (release h ≡ some enoent)
      × (flush h ≡ some enoent)
      × (fsync h ≡ some enoent)

  pub closed-Refuses : (h : Handle) → h.closed ≡ true → Refuses h
  unfolding read_all read write release flush fsync
  closed-Refuses h c = (
    (λ r. ground arith),
    (λ r offset size. ground arith),
    (λ r offset bytes. ground arith),
    ground arith,
    ground arith,
    ground arith,
  )

pub close-closed : (h : Handle) → (close h).closed ≡ true
unfolding close
close-closed h = ground arith
