-- ===== src/Base/Lists.antt =====
-- Lists measured and indexed by native numbers, under the library's names.
use Prim.Native.Nat.{ℕ, zero, suc, ◌+◌, ◌-◌, ◌<◌, min}
use mathlib.Core.Path.{◌≡◌, refl, sym, ap, ◌∙◌, subst}
use mathlib.Core.Logic.{◌⊎◌, ◌≢◌, inl, inr}
use mathlib.Core.Bool.{Bool, true}
use mathlib.Core.List.{List, [], ◌∷◌, ◌++◌}
use mathlib.Core.Option.{Option, none, some}
use native.Mathlib.Nat.{zero-add, suc-add}
use native.Mathlib.Omega.{arith}

module _ {ℓ} {A : Type ℓ} where
  abbrev pub length : List A → ℕ
  length [] = 0
  length (x ∷ xs) = suc (length xs)

  abbrev pub get_elem? : List A → ℕ → Option A
  get_elem? [] i = none
  get_elem? (x ∷ xs) zero = some x
  get_elem? (x ∷ xs) (suc i) = get_elem? xs i

  -- A write out of bounds changes nothing.
  abbrev pub set : List A → ℕ → A → List A
  set [] i v = []
  set (x ∷ xs) zero v = v ∷ xs
  set (x ∷ xs) (suc i) v = x ∷ set xs i v

  abbrev pub take : ℕ → List A → List A
  take zero xs = []
  take (suc n) [] = []
  take (suc n) (x ∷ xs) = x ∷ take n xs

  abbrev pub drop : ℕ → List A → List A
  drop zero xs = xs
  drop (suc n) [] = []
  drop (suc n) (x ∷ xs) = drop n xs

  pub length-append : (xs ys : List A) → length (xs ++ ys) ≡ length xs + length ys
  length-append [] ys = omega arith
  length-append (x ∷ xs) ys = omega (arith, length-append xs ys)

  pub length-take : (n : ℕ) (xs : List A) → length (take n xs) ≡ min n (length xs)
  length-take zero xs = omega arith
  length-take (suc n) [] = omega arith
  length-take (suc n) (x ∷ xs) = omega (arith, length-take n xs)

  pub length-drop : (n : ℕ) (xs : List A) → length (drop n xs) ≡ length xs - n
  length-drop zero xs = omega arith
  length-drop (suc n) [] = omega arith
  length-drop (suc n) (x ∷ xs) = omega (arith, length-drop n xs)

  pub take-append-drop : (n : ℕ) (xs : List A) → take n xs ++ drop n xs ≡ xs
  take-append-drop zero xs = refl
  take-append-drop (suc n) [] = refl
  take-append-drop (suc n) (x ∷ xs) = rw (take-append-drop n xs)

  pub drop-nil : (n : ℕ) → drop n [] ≡ []
  drop-nil zero = refl
  drop-nil (suc n) = refl

  pub drop-add : (m n : ℕ) (xs : List A) → drop (m + n) xs ≡ drop n (drop m xs)
  drop-add zero n xs = rw zero-add
  drop-add (suc m) n [] = drop-nil (suc m + n) ∙ sym (drop-nil n)
  drop-add (suc m) n (x ∷ xs) = rw suc-add (drop-add m n xs)

  pub drop-append : (xs ys : List A) → drop (length xs) (xs ++ ys) ≡ ys
  drop-append [] ys = refl
  drop-append (x ∷ xs) ys = drop-append xs ys

  pub length-snoc : (xs : List A) (x : A) → length (xs ++ x ∷ []) ≡ length xs + 1
  length-snoc [] x = refl
  length-snoc (y ∷ ys) x = omega (arith, length-snoc ys x)

  pub length-set : (xs : List A) (i : ℕ) (x : A) → length (set xs i x) ≡ length xs
  length-set [] i x = refl
  length-set (y ∷ ys) zero x = refl
  length-set (y ∷ ys) (suc i) x = omega (arith, length-set ys i x)

  pub get_elem?-append :
      (xs : List A) (x : A) (ys : List A) → get_elem? (xs ++ x ∷ ys) (length xs) ≡ some x
  get_elem?-append [] x ys = refl
  get_elem?-append (z ∷ xs) x ys = get_elem?-append xs x ys

  pub set-append :
      (xs : List A) (x y : A) (ys : List A)
      → set (xs ++ x ∷ ys) (length xs) y ≡ (xs ++ y ∷ []) ++ ys
  set-append [] x y ys = refl
  set-append (z ∷ xs) x y ys = ap (λ l. z ∷ l) (set-append xs x y ys)

  -- What stands at an index behind a write: what was written there, or what stood there.
  pub get_elem?-set :
      (xs : List A) (i j : ℕ) (v x : A)
      → get_elem? (set xs i v) j ≡ some x
      → ((i ≡ j) × (v ≡ x)) ⊎ (get_elem? xs j ≡ some x)
  get_elem?-set [] i j v x e = inr e
  get_elem?-set (y ∷ ys) zero zero v x e = inl (refl, cc)
  get_elem?-set (y ∷ ys) zero (suc j) v x e = inr e
  get_elem?-set (y ∷ ys) (suc i) zero v x e = inr e
  get_elem?-set (y ∷ ys) (suc i) (suc j) v x e = elim (get_elem?-set ys i j v x e) [
    | inl (p, q) ↦ inl (ap suc p, q)
    | inr q ↦ inr q
  ]

  pub get_elem?-set-same :
      (xs : List A) (i : ℕ) (x v : A) → get_elem? xs i ≡ some x → get_elem? (set xs i v) i ≡ some v
  get_elem?-set-same [] i x v e = cc
  get_elem?-set-same (y ∷ ys) zero x v e = refl
  get_elem?-set-same (y ∷ ys) (suc i) x v e = get_elem?-set-same ys i x v e

  pub take-append : (xs ys : List A) → take (length xs) (xs ++ ys) ≡ xs
  take-append [] ys = refl
  take-append (x ∷ xs) ys = ap (λ l. x ∷ l) (take-append xs ys)

  pub get_elem?-set-other :
      (xs : List A) (i j : ℕ) (v : A) → i ≢ j → get_elem? (set xs i v) j ≡ get_elem? xs j
  get_elem?-set-other [] i j v ne = refl
  get_elem?-set-other (y ∷ ys) zero zero v ne = absurd (ne refl)
  get_elem?-set-other (y ∷ ys) zero (suc j) v ne = refl
  get_elem?-set-other (y ∷ ys) (suc i) zero v ne = refl
  get_elem?-set-other (y ∷ ys) (suc i) (suc j) v ne =
      get_elem?-set-other ys i j v (λ e. ne (ap suc e))

  -- What stands at an index behind an addition: an old element, or the new one.
  pub get_elem?-snoc :
      (xs : List A) (j : ℕ) (v x : A)
      → get_elem? (xs ++ v ∷ []) j ≡ some x
      → (v ≡ x) ⊎ (get_elem? xs j ≡ some x)
  get_elem?-snoc [] zero v x e = inl (cc)
  get_elem?-snoc [] (suc j) v x e = cc
  get_elem?-snoc (y ∷ ys) zero v x e = inr e
  get_elem?-snoc (y ∷ ys) (suc j) v x e = get_elem?-snoc ys j v x e

  pub get_elem?-last : (xs : List A) (v : A) → get_elem? (xs ++ v ∷ []) (length xs) ≡ some v
  get_elem?-last [] v = refl
  get_elem?-last (y ∷ ys) v = get_elem?-last ys v

module _ {A : Type 0} where
  -- What is true of all elements.
  abbrev pub Each : (A → Type 0) → List A → Type 0
  Each P xs = (i : ℕ) (x : A) → get_elem? xs i ≡ some x → P x

  -- What is true of the element with this index, if there is one.
  abbrev pub At : (A → Type 0) → List A → ℕ → Type 0
  At P xs i = (x : A) → get_elem? xs i ≡ some x → P x

  pub set-At :
      (P : A → Type 0) (xs : List A) (i j : ℕ) (v : A) → P v → At P xs j → At P (set xs i v) j
  set-At P xs i j v p at x e = elim (get_elem?-set xs i j v x e) [
    | inl (same, is) ↦ subst P is p
    | inr old ↦ at x old
  ]

  pub set-hit : (P : A → Type 0) (xs : List A) (i : ℕ) (v : A) → P v → At P (set xs i v) i
  set-hit P [] i v p x e = cc
  set-hit P (y ∷ ys) zero v p x e = subst P (cc) p
  set-hit P (y ∷ ys) (suc i) v p x e = set-hit P ys i v p x e

  pub set-Each :
      (P : A → Type 0) (xs : List A) (i : ℕ) (v : A) → P v → Each P xs → Each P (set xs i v)
  set-Each P xs i v p all j = set-At P xs i j v p (all j)

  pub get_elem?-below : (xs : List A) (i : ℕ) (x : A) → get_elem? xs i ≡ some x → i < length xs
  get_elem?-below [] i x e = cc
  get_elem?-below (y ∷ ys) zero x e = omega arith
  get_elem?-below (y ∷ ys) (suc i) x e = omega (arith, get_elem?-below ys i x e)

  pub get_elem?-exists : (xs : List A) (i : ℕ) → i < length xs → (x : A) × (get_elem? xs i ≡ some x)
  get_elem?-exists [] i b = absurd (omega (arith, b))
  get_elem?-exists (y ∷ ys) zero b = (y, refl)
  get_elem?-exists (y ∷ ys) (suc i) b = get_elem?-exists ys i (omega (arith, b))

module _ {ℓ} {A : Type ℓ} (holds : A → Bool) where
  -- What stands at an index in the first list still stands there in the second, perhaps changed, and
  -- what held of it still holds.
  abbrev pub Lasts : List A → List A → Type ℓ
  Lasts xs ys =
      (i : ℕ) (x : A)
      → get_elem? xs i ≡ some x
      → (y : A) × (get_elem? ys i ≡ some y) × (holds x ≡ true → holds y ≡ true)

  pub Lasts-refl : (xs : List A) → Lasts xs xs
  Lasts-refl xs i x e = (x, e, λ h. h)

  pub Lasts-trans : (xs ys zs : List A) → Lasts xs ys → Lasts ys zs → Lasts xs zs
  Lasts-trans xs ys zs f g i x e =
      let (y, q, h) = f i x e in let (z, r, k) = g i y q in (z, r, λ a. k (h a))

  pub Lasts-snoc : (xs : List A) (v : A) → Lasts xs (xs ++ v ∷ [])
  Lasts-snoc [] v i x e = cc
  Lasts-snoc (y ∷ ys) v zero x e = (x, e, λ h. h)
  Lasts-snoc (y ∷ ys) v (suc i) x e = Lasts-snoc ys v i x e

  pub Lasts-set :
      (xs : List A) (j : ℕ) (v : A)
      → ((x : A) → get_elem? xs j ≡ some x → holds x ≡ true → holds v ≡ true)
      → Lasts xs (set xs j v)
  Lasts-set [] j v h i x e = cc
  Lasts-set (y ∷ ys) zero v h zero x e = (v, refl, h x e)
  Lasts-set (y ∷ ys) zero v h (suc i) x e = (x, e, λ a. a)
  Lasts-set (y ∷ ys) (suc j) v h zero x e = (x, e, λ a. a)
  Lasts-set (y ∷ ys) (suc j) v h (suc i) x e = Lasts-set ys j v h i x e
