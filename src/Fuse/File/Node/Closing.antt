-- ===== src/Fuse/File/Node/Closing.antt =====
-- Opening and closing a node of filesystem/server/provider/fuse/filesystem/file/node/main.go.
use mathlib.Core.Path.{subst}
use fuse_video_streamer.Base.{
  ℕ, ◌+◌, ◌≡◌, refl, ap, ◌∙◌, inl, inr, true, false, Bool, Option, none, some, List, [], ◌∷◌, ◌++◌,
  map, arith, length, get_elem?, set, append_assoc, Bool-cases, Option-cases, get_elem?-append,
  set-append, length-snoc,
}
use fuse_video_streamer.Go.{Outcome, ok, err, panics, nil_dereference}
use fuse_video_streamer.Fuse.Handles.{Held, Held-append, AllClosed, AllClosed-get}
use fuse_video_streamer.Client.{Client}
use fuse_video_streamer.Fuse.File.Handle.{Handle, new_handle}
use fuse_video_streamer.Fuse.File.Handle
use fuse_video_streamer.Fuse.File.Handle.Laws.{Refuses, closed-Refuses, close-closed}
use fuse_video_streamer.Fuse.File.Node.{
  Node, new_node, open_by, open_handle, open_node, close_handles, closed_node, close,
}

abbrev is_closed : Handle → Bool
is_closed h = h.closed

-- As long as the node is open it holds all its handles; then they are closed.
abbrev pub WellBy : Bool → Node → Type 0
WellBy false n = (n.service ≡ some false) × Held 0 n.handles n.objects
WellBy true n = AllClosed is_closed n.objects

abbrev pub IsWell : Node → Type 0
IsWell n = WellBy n.closed n

pub new_node-IsWell : (identifier size : ℕ) → IsWell (new_node identifier size)
unfolding new_node
new_node-IsWell identifier size = (refl, tt)

close_handles-Held :
    (hs : List (Option ℕ)) (before os : List Handle) (i : ℕ)
    → i ≡ length before
    → Held i hs os
    → close_handles hs (before ++ os) ≡ ok (before ++ map Handle.close os)
unfolding close_handles
close_handles-Held [] before [] i e p = refl
close_handles-Held [] before (o ∷ os) i e p = absurd p
close_handles-Held (none ∷ hs) before os i e p = absurd p
close_handles-Held (some j ∷ hs) before [] i e p = absurd p
close_handles-Held (some j ∷ hs) before (o ∷ os) i e p =
    let at : j ≡ length before = p.0 ∙ e in
    let found : get_elem? (before ++ o ∷ os) j ≡ some o =
      ap (get_elem? (before ++ o ∷ os)) at ∙ get_elem?-append before o os in
    let stored : set (before ++ o ∷ os) j (Handle.close o) ≡ (before ++ Handle.close o ∷ []) ++ os =
      ap (λ k. set (before ++ o ∷ os) k (Handle.close o)) at
      ∙ set-append before o (Handle.close o) os in
    rw (close_handles, found, stored)
      (close_handles-Held hs (before ++ Handle.close o ∷ []) os (i + 1)
          (omega (arith, e, length-snoc before (Handle.close o))) p.1
        ∙ ap ok (append_assoc before (Handle.close o ∷ []) (map Handle.close os)))

AllClosed-map : (hs : List Handle) → AllClosed is_closed (map Handle.close hs)
AllClosed-map [] = tt
AllClosed-map (h ∷ hs) = (close-closed h, AllClosed-map hs)

open_handle-IsWell :
    (increment_id : ℕ) (n : Node)
    → n.closed ≡ false
    → IsWell n
    → IsWell (open_handle increment_id n).1
unfolding open_handle
open_handle-IsWell increment_id n c w =
    let (service, held) : WellBy false n = subst (λ b. WellBy b n) c w in
    let (h, id) = new_handle increment_id n.identifier n.size in
    simp (service, c)
      (refl, Held-append 0 (length n.objects) n.handles n.objects h (omega arith) held)

-- Open keeps a file node well-formed: as long as the node is open its handle service is open and
-- the field handles holds all handles that were made, in order; and when it is closed they all are
-- closed.
pub open_node-IsWell :
    (increment_id : ℕ) (n : Node) → IsWell n → IsWell (open_node increment_id n).1
unfolding open_node
open_node-IsWell increment_id n w = elim (Bool-cases n.closed) [
  | inl c ↦ simp c (subst (λ b. WellBy b n) c w)
  | inr c ↦ simp c (open_handle-IsWell increment_id n c w)
]

pub open_node-keeps_closed :
    (increment_id : ℕ) (n : Node) → n.closed ≡ true → (open_node increment_id n).1.closed ≡ true
unfolding open_node
open_node-keeps_closed increment_id n c = simp c

-- The node is closed, and so are all its handles.
abbrev pub Shut : Outcome Node → Type 0
Shut (ok n) = (n.closed ≡ true) × AllClosed is_closed n.objects
Shut _ = ⊥

pub close-Shut : (n : Node) → IsWell n → Shut (close n)
unfolding close
close-Shut n w = elim (Bool-cases n.closed) [
  | inl c ↦ simp c (refl, subst (λ b. WellBy b n) c w)
  | inr c ↦
      let (service, held) : WellBy false n = subst (λ b. WellBy b n) c w in
      simp (c, service, close_handles-Held n.handles [] n.objects 0 refl held)
        (refl, AllClosed-map n.objects)
]

module _ {R : Type 0} (client : Client R) where
  -- The node is closed, and whoever still has one of its handles is refused by it.
  abbrev pub Refused : Outcome Node → Type 0
  Refused (ok n) =
      (n.closed ≡ true) × ((i : ℕ) (h : Handle) → get_elem? n.objects i ≡ some h → Refuses client h)
  Refused _ = ⊥

  Shut-Refused : (r : Outcome Node) → Shut r → Refused r
  Shut-Refused (ok n) (c, all) =
      (c, λ i h e. closed-Refuses client h (AllClosed-get is_closed n.objects i h all e))
  Shut-Refused (err e) s = s
  Shut-Refused (panics p) s = s

  -- A Close of a well-formed file node, one that as long as it is open holds all handles that it
  -- made, succeeds, and afterwards every operation of every handle that the node ever made is
  -- refused with ENOENT, without a call of the remote file system.
  pub close-Refused : (n : Node) → IsWell n → Refused (close n)
  close-Refused n w = Shut-Refused (close n) (close-Shut n w)

closed_node-service :
    (n n' : Node) (r : Outcome (List Handle)) → closed_node n r ≡ ok n' → n'.service ≡ none
closed_node-service n n' (ok objects) e = ground arith
closed_node-service n n' (err x) e = ground arith
closed_node-service n n' (panics p) e = ground arith

close-service : (n n' : Node) → n.closed ≡ false → close n ≡ ok n' → n'.service ≡ none
unfolding close
close-service n n' c e = elim (Option-cases n.service) [
  | inl s ↦ ground (arith, e, s)
  | inr (b, s) ↦ closed_node-service n n' (close_handles n.handles n.objects) (simp (c, s) at e)
]

-- When an open file node was closed by a Close that succeeded, an Open that had passed its test
-- before panics at the nil handle service.
pub close_while_opening_panics :
    (increment_id : ℕ) (n n' : Node)
    → n.closed ≡ false
    → close n ≡ ok n'
    → open_handle increment_id n' ≡ (panics nil_dereference, n', increment_id)
unfolding open_handle
close_while_opening_panics increment_id n n' c e =
    ap (open_by increment_id n') (close-service n n' c e)
