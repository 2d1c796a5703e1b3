-- ===== src/Fuse/Directory/Registered.antt =====
-- Lemmas about the registries of filesystem/server/provider/fuse/registry/main.go: which nodes they
-- hold.
use Prim.Native.String.{String}
use text.Mathlib.Text.{◌==◌ as str_eq}
use text.Mathlib.TextEquality.{eq_iff}
use fuse_video_streamer.Base.{
  ◌≡◌, refl, ◌⊎◌, inl, inr, true, List, [], ◌∷◌, ◌++◌, Bool-cases, if◌then◌else◌,
}
use fuse_video_streamer.Fuse.Registry.{NodeRef, Instances, is_instance, add, nodes_of}

abbrev pub In : NodeRef → List NodeRef → Type 0
In n [] = ⊥
In n (x ∷ xs) = (x ≡ n) ⊎ In n xs

abbrev pub Registered : NodeRef → Instances → Type 0
Registered n [] = ⊥
Registered n ((name, nodes) ∷ rest) = In n nodes ⊎ Registered n rest

-- Nothing is lost from one map of registries to the next.
abbrev pub Extends : Instances → Instances → Type 0
Extends a b =
    ((n : NodeRef) → Registered n a → Registered n b)
    × ((name : String) → is_instance a name ≡ true → is_instance b name ≡ true)
    × ((n : NodeRef) (name : String) → In n (nodes_of a name) → In n (nodes_of b name))

pub Extends-refl : (a : Instances) → Extends a a
Extends-refl a = ((λ n r. r), (λ name i. i), (λ n name p. p))

pub Extends-trans : (a b c : Instances) → Extends a b → Extends b c → Extends a c
Extends-trans a b c (r, i, h) (r', i', h') =
    ((λ n x. r' n (r n x)), (λ name x. i' name (i name x)), (λ n name p. h' n name (h n name p)))

In-append : (n x : NodeRef) (xs : List NodeRef) → In n xs → In n (xs ++ x ∷ [])
In-append n x [] p = absurd p
In-append n x (y ∷ ys) (inl e) = inl e
In-append n x (y ∷ ys) (inr p) = inr (In-append n x ys p)

In-last : (x : NodeRef) (xs : List NodeRef) → In x (xs ++ x ∷ [])
In-last x [] = inl refl
In-last x (y ∷ ys) = inr (In-last x ys)

Registered-add :
    (n x : NodeRef) (a : Instances) (name : String) → Registered n a → Registered n (add x a name)
unfolding add
Registered-add n x [] name p = absurd p
Registered-add n x ((other, nodes) ∷ rest) name p = elim (Bool-cases (str_eq other name)) [
  | inl e ↦ rw e (elim p [ inl q ↦ inl (In-append n x nodes q) | inr q ↦ inr q ])
  | inr e ↦ rw e (elim p [ inl q ↦ inl q | inr q ↦ inr (Registered-add n x rest name q) ])
]

is_instance-add :
    (x : NodeRef) (a : Instances) (name other : String)
    → is_instance a other ≡ true
    → is_instance (add x a name) other ≡ true
unfolding add
is_instance-add x [] name other p = p
is_instance-add x ((first, nodes) ∷ rest) name other p = elim (Bool-cases (str_eq first name)) [
  | inl e ↦ rw e p
  | inr e ↦ rw e (elim (Bool-cases (str_eq first other)) [
    | inl q ↦ rw q refl
    | inr q ↦ rw q (is_instance-add x rest name other (rw q at p))
  ])
]

pub In-split : (n : NodeRef) (xs ys : List NodeRef) → In n (xs ++ ys) → In n xs ⊎ In n ys
In-split n [] ys p = inr p
In-split n (x ∷ xs) ys (inl e) = inl (inl e)
In-split n (x ∷ xs) ys (inr p) = elim (In-split n xs ys p) [ inl q ↦ inl (inr q) | inr q ↦ inr q ]

pub In-left : (n : NodeRef) (xs ys : List NodeRef) → In n xs → In n (xs ++ ys)
In-left n [] ys p = absurd p
In-left n (x ∷ xs) ys (inl e) = inl e
In-left n (x ∷ xs) ys (inr p) = inr (In-left n xs ys p)

pub In-right : (n : NodeRef) (xs ys : List NodeRef) → In n ys → In n (xs ++ ys)
In-right n [] ys p = p
In-right n (x ∷ xs) ys p = inr (In-right n xs ys p)

nodes_of-cons :
    (n : NodeRef) (more nodes : List NodeRef) (other : String) (rest : Instances) (name : String)
    → (In n nodes → In n more)
    → In n (nodes_of ((other, nodes) ∷ rest) name)
    → In n (nodes_of ((other, more) ∷ rest) name)
nodes_of-cons n more nodes other rest name h p = elim (Bool-cases (str_eq other name)) [
  | inl e ↦ rw e (elim (In-split n nodes (nodes_of rest name) (rw e at p)) [
    | inl q ↦ In-left n more (nodes_of rest name) (h q)
    | inr q ↦ In-right n more (nodes_of rest name) q
  ])
  | inr e ↦ rw e (rw e at p)
]

nodes_of-rest :
    (n : NodeRef) (nodes : List NodeRef) (other : String) (rest more : Instances) (name : String)
    → (In n (nodes_of rest name) → In n (nodes_of more name))
    → In n (nodes_of ((other, nodes) ∷ rest) name)
    → In n (nodes_of ((other, nodes) ∷ more) name)
nodes_of-rest n nodes other rest more name h p = elim (Bool-cases (str_eq other name)) [
  | inl e ↦ rw e (elim (In-split n nodes (nodes_of rest name) (rw e at p)) [
    | inl q ↦ In-left n nodes (nodes_of more name) q
    | inr q ↦ In-right n nodes (nodes_of more name) (h q)
  ])
  | inr e ↦ rw e (h (rw e at p))
]

nodes_of-add :
    (n x : NodeRef) (a : Instances) (name other : String)
    → In n (nodes_of a other)
    → In n (nodes_of (add x a name) other)
unfolding add
nodes_of-add n x [] name other p = p
nodes_of-add n x ((first, nodes) ∷ rest) name other p = elim (Bool-cases (str_eq first name)) [
  | inl e ↦ rw e (nodes_of-cons n (nodes ++ x ∷ []) nodes first rest other (In-append n x nodes) p)
  | inr e ↦ rw e (
      nodes_of-rest n nodes first rest (add x rest name) other (nodes_of-add n x rest name other) p)
]

pub add-Extends : (x : NodeRef) (a : Instances) (name : String) → Extends a (add x a name)
add-Extends x a name = (
  (λ n p. Registered-add n x a name p),
  (λ other p. is_instance-add x a name other p),
  (λ n other p. nodes_of-add n x a name other p),
)

-- The map behind `GetInstance`.
abbrev pub with_name : Instances → String → Instances
with_name a name = if is_instance a name then a else (name, []) ∷ a

pub with_name-Extends :
    (a : Instances) (name : String)
    → Extends a (with_name a name) × (is_instance (with_name a name) name ≡ true)
with_name-Extends a name = elim (Bool-cases (is_instance a name)) [
  | inl e ↦ rw e (Extends-refl a, e)
  | inr e ↦ rw e (
    (
      (λ n p. inr p),
      (λ other p. elim (Bool-cases (str_eq name other)) [ inl q ↦ rw q refl | inr q ↦ rw q p ]),
      λ n other p. elim (Bool-cases (str_eq name other)) [ inl q ↦ rw q p | inr q ↦ rw q p ],
    ),
    rw ((eq_iff name name).1 refl) refl,
  )
]

-- A node that is added under a name that has a registry is registered.
pub add-Registered :
    (x : NodeRef) (a : Instances) (name : String)
    → is_instance a name ≡ true
    → Registered x (add x a name)
unfolding add
add-Registered x [] name i = cc
add-Registered x ((other, nodes) ∷ rest) name i = elim (Bool-cases (str_eq other name)) [
  | inl e ↦ rw e (inl (In-last x nodes))
  | inr e ↦ rw e (inr (add-Registered x rest name (rw e at i)))
]
