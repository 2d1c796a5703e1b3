-- ===== src/Fuse/File/Node/Racing.antt =====
-- Two calls of `Open` of filesystem/server/provider/fuse/filesystem/file/node/main.go at a time. They hold
-- the lock of the node for reading only, so that both may read `node.handles` before one of them stores
-- what `append` made of it.
use mathlib.Core.Path.{subst}
use fuse_video_streamer.Base.{
  ℕ, ◌+◌, ◌≡◌, refl, sym, ap, ◌∙◌, append-nil, Bool, true, false, Option, none, some, List, [], ◌∷◌,
  ◌++◌, map, arith, length, get_elem?, set, append_assoc, get_elem?-append, set-append, length-snoc,
  if◌then◌else◌,
}
use fuse_video_streamer.Go.{Outcome, ok}
use fuse_video_streamer.Fuse.Handles.{Held}
use fuse_video_streamer.Fuse.File.Handle.{Handle, new_handle}
use fuse_video_streamer.Fuse.File.Handle
use fuse_video_streamer.Fuse.File.Node.{Node, open_handle, close_handles, close}
use fuse_video_streamer.Fuse.File.Node.Closing.{IsWell, WellBy}

-- `handle, err := node.handleService.New()` of an open service.
unfoldable pub make_handle : ℕ → Node → Node × ℕ
make_handle increment_id n =
    let (h, increment_id') = new_handle increment_id n.identifier n.size in
    (record n { objects = n.objects ++ h ∷ [] }, increment_id')

-- `node.handles = append(node.handles, handle)`, where `node.handles` was read as the first argument.
unfoldable pub store_handle : List (Option ℕ) → ℕ → Node → Node
store_handle read i n = record n { handles = read ++ some i ∷ [] }

-- An Open that nothing overlaps with reads the field as it is.
open_handle_parts :
    (increment_id : ℕ) (n : Node)
    → n.service ≡ some false
    → (open_handle increment_id n).1
      ≡ store_handle n.handles (length n.objects) (make_handle increment_id n).0
unfolding open_handle make_handle store_handle
open_handle_parts increment_id n e = simp e refl

-- Both have made their handles, and both have read the field. It ends with the handle of the
-- first or of the second: of the one that stores last, or where the two slices share an array, of
-- the one whose write to the array is the last.
unfoldable pub open_twice : ℕ → Node → Bool → Node
open_twice increment_id n first_stays =
    let (n1, increment_id1) = make_handle increment_id n in
    let (n2, increment_id2) = make_handle increment_id1 n1 in
    let i = length n.objects in store_handle n.handles (if first_stays then i else i + 1) n2

close_handles-found :
    (is : List (Option ℕ)) (os : List Handle) (i : ℕ) (h : Handle)
    → get_elem? os i ≡ some h
    → close_handles (some i ∷ is) os ≡ close_handles is (set os i (Handle.close h))
unfolding close_handles
close_handles-found is os i h e = rw (close_handles, e) refl

-- `close_handles` at the handle behind these.
close_handles-next :
    (is : List (Option ℕ)) (before : List Handle) (h : Handle) (after : List Handle) (i : ℕ)
    → i ≡ length before
    → close_handles (some i ∷ is) (before ++ h ∷ after)
      ≡ close_handles is ((before ++ Handle.close h ∷ []) ++ after)
close_handles-next is before h after i e =
    close_handles-found is (before ++ h ∷ after) i h
      (ap (get_elem? (before ++ h ∷ after)) e ∙ get_elem?-append before h after)
    ∙ ap (close_handles is) (
        ap (λ k. set (before ++ h ∷ after) k (Handle.close h)) e
        ∙ set-append before h (Handle.close h) after)

-- `close_handles` over all handles that are held, with others made behind them.
close_handles-more :
    (hs more : List (Option ℕ)) (before os after : List Handle) (i : ℕ)
    → i ≡ length before
    → Held i hs os
    → close_handles (hs ++ more) (before ++ (os ++ after))
      ≡ close_handles more (before ++ (map Handle.close os ++ after))
close_handles-more [] more before [] after i e p = refl
close_handles-more [] more before (o ∷ os) after i e p = absurd p
close_handles-more (none ∷ hs) more before os after i e p = absurd p
close_handles-more (some j ∷ hs) more before [] after i e p = absurd p
close_handles-more (some j ∷ hs) more before (o ∷ os) after i e p =
    let c = Handle.close o in
    close_handles-next (hs ++ more) before o (os ++ after) j (p.0 ∙ e)
    ∙ close_handles-more hs more (before ++ c ∷ []) os after (i + 1)
        (omega (arith, e, length-snoc before c)) p.1
    ∙ ap (close_handles more) (append_assoc before (c ∷ []) (map Handle.close os ++ after))

length-map : (f : Handle → Handle) (hs : List Handle) → length (map f hs) ≡ length hs
length-map f [] = refl
length-map f (h ∷ hs) = omega (arith, length-map f hs)

-- What a Close makes of handles and of two more, of which the node holds one.
abbrev pub lost : List Handle → Handle → Handle → Bool → List Handle
lost before h1 h2 first_stays =
    before ++ (if first_stays then Handle.close h1 ∷ h2 ∷ [] else h1 ∷ Handle.close h2 ∷ [])

-- One of two handles is closed, and the other one is left.
close_one :
    (before : List Handle) (h1 h2 : Handle) (first_stays : Bool) (i : ℕ)
    → i ≡ length before
    → close_handles (some (if first_stays then i else i + 1) ∷ []) (before ++ h1 ∷ h2 ∷ [])
      ≡ ok (lost before h1 h2 first_stays)
unfolding close_handles
close_one before h1 h2 true i e =
    close_handles-next [] before h1 (h2 ∷ []) i e
    ∙ ap ok (append_assoc before (Handle.close h1 ∷ []) (h2 ∷ []))
close_one before h1 h2 false i e =
    ap (close_handles (some (i + 1) ∷ [])) (sym (append_assoc before (h1 ∷ []) (h2 ∷ [])))
    ∙ close_handles-next [] (before ++ h1 ∷ []) h2 [] (i + 1)
        (omega (arith, e, length-snoc before h1))
    ∙ ap ok (
        append-nil ((before ++ h1 ∷ []) ++ Handle.close h2 ∷ [])
        ∙ append_assoc before (h1 ∷ []) (Handle.close h2 ∷ []))

-- The Close succeeds, and a handle that an Open has given to its caller is still open.
abbrev pub LeavesOpen : ℕ → Outcome Node → Type 0
LeavesOpen i (ok n) =
    (n.closed ≡ true) × ((h : Handle) × (get_elem? n.objects i ≡ some h) × (h.closed ≡ false))
LeavesOpen i _ = ⊥

lost_at :
    (before : List Handle) (h1 h2 : Handle) (first_stays : Bool) (i : ℕ)
    → i ≡ length before
    → h1.closed ≡ false
    → h2.closed ≡ false
    → (h : Handle) × (get_elem? (lost before h1 h2 first_stays) (if first_stays then i + 1 else i)
        ≡ some h)
      × (h.closed ≡ false)
lost_at before h1 h2 true i e o1 o2 = (
  h2,
  ap (λ l. get_elem? l (i + 1)) (sym (append_assoc before (Handle.close h1 ∷ []) (h2 ∷ [])))
      ∙ ap (get_elem? ((before ++ Handle.close h1 ∷ []) ++ h2 ∷ []))
          (omega (arith, e, length-snoc before (Handle.close h1)))
      ∙ get_elem?-append (before ++ Handle.close h1 ∷ []) h2 [],
  o2,
)
lost_at before h1 h2 false i e o1 o2 = (
  h1,
  ap (get_elem? (before ++ h1 ∷ Handle.close h2 ∷ [])) e
      ∙ get_elem?-append before h1 (Handle.close h2 ∷ []),
  o1,
)

-- When two Opens of an open and well-formed file node both read the field handles before one of
-- them stores it, whichever of the two handles it then ends with, a Close of the node succeeds and
-- leaves the other handle open.
pub open_twice-LeavesOpen :
    (increment_id : ℕ) (n : Node) (first_stays : Bool)
    → n.closed ≡ false
    → IsWell n
    → LeavesOpen
        (if first_stays then length n.objects + 1 else length n.objects)
        (close (open_twice increment_id n first_stays))
unfolding open_twice make_handle store_handle close new_handle
open_twice-LeavesOpen increment_id n first_stays c w =
    let (service, held) : WellBy false n = subst (λ b. WellBy b n) c w in
    let (h1, id1) = new_handle increment_id n.identifier n.size in
    let (h2, id2) = new_handle id1 n.identifier n.size in
    let i = length n.objects in
    let closed = map Handle.close n.objects in
    let at : i ≡ length closed = sym (length-map Handle.close n.objects) in
    let closes : close_handles (n.handles ++ some (if first_stays then i else i + 1) ∷ [])
          ((n.objects ++ h1 ∷ []) ++ h2 ∷ [])
        ≡ ok (lost closed h1 h2 first_stays) =
      ap (close_handles _) (append_assoc n.objects (h1 ∷ []) (h2 ∷ []))
      ∙ close_handles-more n.handles _ [] n.objects (h1 ∷ h2 ∷ []) 0 refl held
      ∙ close_one closed h1 h2 first_stays i at in
    simp (c, service, closes) (refl, lost_at closed h1 h2 first_stays i at refl refl)
