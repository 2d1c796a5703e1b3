-- ===== src/Fuse/File/Node.antt =====
-- filesystem/server/provider/fuse/filesystem/file: node/main.go, and handle/service/main.go, which
-- makes the handles. A node's handles are known by their index. `Close` takes no lock: an `Open`
-- that has passed its test and a `Close` may overlap, so `Open` is in two parts.
pub mod Closing
pub mod Racing
use fuse_video_streamer.Base.{
  ℕ, ◌+◌, Bool, true, false, Option, none, some, List, [], ◌∷◌, ◌++◌, length, get_elem?, set,
  if◌then◌else◌,
}
use fuse_video_streamer.Go.{enoent, Outcome, ok, err, panics, nil_dereference}
use fuse_video_streamer.Fuse.File.Handle.{Handle, new_handle}
use fuse_video_streamer.Fuse.File.Handle

-- The struct. `objects` are all handles that were made, `handles` the indexes of those that the field
-- `handles` holds, `none` for a nil one. `service` is whether the handle service was closed, or none
-- where the pointer is nil.
pub record Node : Type 0 where
  pub identifier : ℕ
  pub size : ℕ
  pub service : Option Bool
  pub handles : List (Option ℕ)
  pub objects : List Handle
  pub closed : Bool

unfoldable pub new_node : ℕ → ℕ → Node
new_node identifier size = record {
  identifier = identifier;
  size = size;
  service = some false;
  handles = [];
  objects = [];
  closed = false;
}

-- The mode and the size.
unfoldable pub attr : Node → Outcome (ℕ × ℕ)
attr n = if n.closed then err enoent else ok (0, n.size)

-- `handle service.New()` and what follows. The service, once closed, returns a nil handle and no
-- error.
abbrev pub open_by : ℕ → Node → Option Bool → Outcome (Option ℕ) × Node × ℕ
open_by increment_id n none = (panics nil_dereference, n, increment_id)
open_by increment_id n (some true) =
    (ok none, record n { handles = n.handles ++ none ∷ [] }, increment_id)
open_by increment_id n (some false) =
    let (h, increment_id') = new_handle increment_id n.identifier n.size in
    let i = length n.objects in
    (
      ok (some i),
      record n { handles = n.handles ++ some i ∷ []; objects = n.objects ++ h ∷ [] },
      increment_id',
    )

-- `Open` behind its test.
unfoldable pub open_handle : ℕ → Node → Outcome (Option ℕ) × Node × ℕ
open_handle increment_id n = open_by increment_id n n.service

-- `Open` with no `Close` in between.
unfoldable pub open_node : ℕ → Node → Outcome (Option ℕ) × Node × ℕ
open_node increment_id n =
    if n.closed then (err enoent, n, increment_id) else open_handle increment_id n

-- `handle.Close()` on each of the handles; a nil one panics.
unfoldable pub close_handles : List (Option ℕ) → List Handle → Outcome (List Handle)
close_handles [] objects = ok objects
close_handles (none ∷ is) objects = panics nil_dereference
close_handles (some i ∷ is) objects = elim (get_elem? objects i) [
  | none ↦ close_handles is objects
  | some h ↦ close_handles is (set objects i (Handle.close h))
]

-- `Close`, which always returns nil. It drops the handle service, then the handles.
abbrev pub closed_node : Node → Outcome (List Handle) → Outcome Node
closed_node n (ok objects) =
    ok (record n { service = none; handles = []; objects = objects; closed = true })
closed_node n (err e) = err e
closed_node n (panics p) = panics p

unfoldable pub close : Node → Outcome Node
close n = if n.closed then ok n else elim n.service [
  | none ↦ panics nil_dereference
  | some c ↦ closed_node n (close_handles n.handles n.objects)
]
