-- ===== src/Fuse/Handles.antt =====
-- How the file nodes and the streamable nodes under filesystem/server/provider/fuse/filesystem hold
-- their handles: lemmas about a list of indexes of the handles that were made.
use fuse_video_streamer.Base.{
  ℕ, zero, suc, ◌+◌, ◌≡◌, Bool, true, Option, none, some, List, [], ◌∷◌, ◌++◌, arith, length,
  get_elem?,
}

module _ {A : Type 0} where
  -- The indexes from `i` on, in order, of these handles.
  abbrev pub Held : ℕ → List (Option ℕ) → List A → Type 0
  Held i [] [] = Unit {0}
  Held i (some j ∷ hs) (o ∷ os) = (j ≡ i) × Held (i + 1) hs os
  Held i _ _ = ⊥

  pub Held-append :
      (i k : ℕ) (hs : List (Option ℕ)) (os : List A) (h : A)
      → k ≡ i + length os
      → Held i hs os
      → Held i (hs ++ some k ∷ []) (os ++ h ∷ [])
  Held-append i k [] [] h e p = (omega (arith, e), tt)
  Held-append i k [] (o ∷ os) h e p = absurd p
  Held-append i k (none ∷ hs) os h e p = absurd p
  Held-append i k (some j ∷ hs) [] h e p = absurd p
  Held-append i k (some j ∷ hs) (o ∷ os) h e p =
      (p.0, Held-append (i + 1) k hs os h (omega (arith, e)) p.1)

  module _ (closed : A → Bool) where
    abbrev pub AllClosed : List A → Type 0
    AllClosed [] = Unit {0}
    AllClosed (h ∷ hs) = (closed h ≡ true) × AllClosed hs

    pub AllClosed-get :
        (hs : List A) (i : ℕ) (h : A) → AllClosed hs → get_elem? hs i ≡ some h → closed h ≡ true
    AllClosed-get [] i h a e = cc
    AllClosed-get (x ∷ hs) zero h a e = cc (a.0, e)
    AllClosed-get (x ∷ hs) (suc i) h a e = AllClosed-get hs i h a.1 e

    pub AllClosed-snoc :
        (hs : List A) (h : A) → AllClosed hs → closed h ≡ true → AllClosed (hs ++ h ∷ [])
    AllClosed-snoc [] h a c = (c, tt)
    AllClosed-snoc (x ∷ hs) h a c = (a.0, AllClosed-snoc hs h a.1 c)
