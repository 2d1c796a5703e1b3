-- ===== src/Fuse/FileSystem/Good.antt =====
-- The sessions of filesystem/server/provider/fuse/filesystem whose nodes are registered and well-formed.
use fuse_video_streamer.Base.{ℕ, [], arith}
use fuse_video_streamer.Fuse.Streamable.Handle.{World}
use fuse_video_streamer.Fuse.Directory.Served.{IsKept}
use fuse_video_streamer.Fuse.FileSystem.{Session}
use fuse_video_streamer.Fuse.FileSystem.Follows.{IsSound}
use fuse_video_streamer.Fuse.FileSystem.Reach.{no_nodes}

module _ {R W B : Type 0} where
  -- All nodes are registered and well-formed.
  abbrev pub IsGood : Session R W B → Type 0
  IsGood s = IsKept s.tree × IsSound s

  pub no_nodes-IsGood :
      (r : R) (w : World W B) (i d : ℕ)
      → IsGood (record { tree = no_nodes r i d; world = w; roots = [] })
  no_nodes-IsGood r w i d = (
    record {
      served = tt;
      directories = λ j b. absurd (omega (arith, b));
      streamables = λ j b. absurd (omega (arith, b));
      files = λ j b. absurd (omega (arith, b));
    },
    ((λ j n e. cc), (λ j n e. cc), (λ j n e. cc)),
  )
