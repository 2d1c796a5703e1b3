-- ===== src/Fuse/Directory/Tidy.antt =====
-- The handles of filesystem/server/provider/fuse/filesystem/directory/node/main.go behind its `Close`.
use fuse_video_streamer.Base.{
  ℕ, ◌≡◌, inl, inr, Bool, true, false, List, [], ◌∷◌, ◌++◌, map, arith, get_elem?-snoc, Each,
  Bool-cases,
}
use mathlib.Core.Path.{subst}
use fuse_video_streamer.Fuse.Handles.{AllClosed}
use fuse_video_streamer.Fuse.Directory.{Directory}
use fuse_video_streamer.Fuse.Directory.Handle.{Handle}
use fuse_video_streamer.Fuse.Directory.Handle as Handles
use fuse_video_streamer.Fuse.Directory.Requests

abbrev pub is_closed_handle : Handle → Bool
is_closed_handle h = h.closed

-- The handles of a closed directory are closed.
abbrev pub IsTidy : Directory → Type 0
IsTidy d = d.closed ≡ true → AllClosed is_closed_handle d.handles

handle_closed : (h : Handle) → (Handles.close h).closed ≡ true
unfolding Handles.close
handle_closed h = ground arith

closed_handles : (hs : List Handle) → AllClosed is_closed_handle (map Handles.close hs)
closed_handles [] = tt
closed_handles (h ∷ hs) = (handle_closed h, closed_handles hs)

-- Close of a directory closes its handles.
pub close-IsTidy : (d : Directory) → IsTidy d → IsTidy (Requests.close d)
unfolding Requests.close
close-IsTidy d tidy = elim (Bool-cases d.closed) [
  | inl c ↦ simp c (λ q. tidy c)
  | inr c ↦ simp c (λ q. closed_handles d.handles)
]

-- Open of a closed directory makes no handle.
pub open_directory-IsTidy :
    (id : ℕ) (d : Directory) → IsTidy d → IsTidy (Requests.open_directory id d).1
unfolding Requests.open_directory
open_directory-IsTidy id d tidy = elim (Bool-cases d.closed) [
  | inl c ↦ simp c (λ q. tidy c)
  | inr c ↦ simp c (λ q. absurd (cc q))
]

-- An open directory is tidy.
pub open-IsTidy : (d : Directory) → d.closed ≡ false → IsTidy d
open-IsTidy d c q = absurd (cc (c, q))

pub IsTidy-snoc :
    (ds : List Directory) (d : Directory)
    → d.closed ≡ false
    → Each IsTidy ds
    → Each IsTidy (ds ++ d ∷ [])
IsTidy-snoc ds d c w i n e = elim (get_elem?-snoc ds i _ n e) [
  | inl q ↦ subst IsTidy q (open-IsTidy d c)
  | inr q ↦ w i n q
]
