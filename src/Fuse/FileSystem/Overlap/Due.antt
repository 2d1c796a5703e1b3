-- ===== src/Fuse/FileSystem/Overlap/Due.antt =====
-- The nodes that the loop of `Close` in filesystem/server/provider/fuse/registry/main.go has yet to come to.
use Prim.Native.String.{String}
use mathlib.Core.Path.{subst}
use text.Mathlib.Text.{◌==◌ as str_eq}
use text.Mathlib.TextEquality.{eq_iff}
use fuse_video_streamer.Base.{
  ◌≡◌, refl, sym, ◌⊎◌, inl, inr, true, false, List, [], ◌∷◌, ◌++◌, Bool-cases,
}
use fuse_video_streamer.Fuse.Registry.{
  NodeRef, Instances, is_instance, nodes_of, without_nodes, names_of,
}
use fuse_video_streamer.Fuse.Directory.Registered.{In, In-left, In-right, Registered, Extends}

-- The node is in a registry with one of these names.
abbrev pub Due : NodeRef → Instances → List String → Type 0
Due n a [] = ⊥
Due n a (x ∷ xs) = In n (nodes_of a x) ⊎ Due n a xs

-- In one of these with another name.
abbrev pub DueElsewhere : NodeRef → Instances → String → List String → Type 0
DueElsewhere n a name [] = ⊥
DueElsewhere n a name (x ∷ xs) =
    ((str_eq name x ≡ false) × In n (nodes_of a x)) ⊎ DueElsewhere n a name xs

In-cons :
    (n : NodeRef) (other : String) (nodes : List NodeRef) (rest : Instances) (x : String)
    → In n (nodes_of rest x)
    → In n (nodes_of ((other, nodes) ∷ rest) x)
In-cons n other nodes rest x p = elim (Bool-cases (str_eq other x)) [
  | inl e ↦ rw e (In-right n nodes (nodes_of rest x) p)
  | inr e ↦ rw e p
]

Due-cons :
    (n : NodeRef) (other : String) (nodes : List NodeRef) (rest : Instances) (xs : List String)
    → Due n rest xs
    → Due n ((other, nodes) ∷ rest) xs
Due-cons n other nodes rest [] p = p
Due-cons n other nodes rest (x ∷ xs) (inl p) = inl (In-cons n other nodes rest x p)
Due-cons n other nodes rest (x ∷ xs) (inr p) = inr (Due-cons n other nodes rest xs p)

-- At first all registered nodes are due.
pub Registered-Due : (n : NodeRef) (a : Instances) → Registered n a → Due n a (names_of a)
Registered-Due n [] p = p
Registered-Due n ((name, nodes) ∷ rest) (inl p) =
    inl (rw ((eq_iff name name).1 refl) (In-left n nodes (nodes_of rest name) p))
Registered-Due n ((name, nodes) ∷ rest) (inr p) =
    inr (Due-cons n name nodes rest (names_of rest) (Registered-Due n rest p))

pub Due-Extends :
    (n : NodeRef) (a b : Instances) (xs : List String) → Extends a b → Due n a xs → Due n b xs
Due-Extends n a b [] e p = p
Due-Extends n a b (x ∷ xs) e (inl p) = inl (e.2 n x p)
Due-Extends n a b (x ∷ xs) e (inr p) = inr (Due-Extends n a b xs e p)

pub DueElsewhere-Extends :
    (n : NodeRef) (a b : Instances) (name : String) (xs : List String)
    → Extends a b
    → DueElsewhere n a name xs
    → DueElsewhere n b name xs
DueElsewhere-Extends n a b name [] e p = p
DueElsewhere-Extends n a b name (x ∷ xs) e (inl (q, p)) = inl (q, e.2 n x p)
DueElsewhere-Extends n a b name (x ∷ xs) e (inr p) = inr (DueElsewhere-Extends n a b name xs e p)

-- A node that is due is in the registry with this name, or due elsewhere.
pub Due-split :
    (n : NodeRef) (a : Instances) (name : String) (xs : List String)
    → Due n a xs
    → In n (nodes_of a name) ⊎ DueElsewhere n a name xs
Due-split n a name [] p = inr p
Due-split n a name (x ∷ xs) (inl p) = elim (Bool-cases (str_eq name x)) [
  | inl e ↦ inl (subst (λ s. In n (nodes_of a s)) (sym ((eq_iff name x).0 e)) p)
  | inr e ↦ inr (inl (e, p))
]
Due-split n a name (x ∷ xs) (inr p) = elim (Due-split n a name xs p) [
  | inl q ↦ inl q
  | inr q ↦ inr (inr q)
]

-- The same for one of the names to come, which is then taken out.
pub Due-take :
    (n : NodeRef) (a : Instances) (before after : List String) (name : String)
    → Due n a (before ++ name ∷ after)
    → In n (nodes_of a name) ⊎ Due n a (before ++ after)
Due-take n a [] after name p = p
Due-take n a (x ∷ before) after name (inl p) = inr (inl p)
Due-take n a (x ∷ before) after name (inr p) = elim (Due-take n a before after name p) [
  | inl q ↦ inl q
  | inr q ↦ inr (inr q)
]

-- Emptying one registry leaves the others.
nodes_of-without_nodes :
    (a : Instances) (name x : String)
    → str_eq name x ≡ false
    → nodes_of (without_nodes a name) x ≡ nodes_of a x
nodes_of-without_nodes [] name x e = refl
nodes_of-without_nodes ((other, nodes) ∷ rest) name x e = elim (Bool-cases (str_eq other name)) [
  | inl q ↦
      let skipped : str_eq other x ≡ false =
        subst (λ s. str_eq s x ≡ false) (sym ((eq_iff other name).0 q)) e in
      rw (q, skipped) (nodes_of-without_nodes rest name x e)
  | inr q ↦ rw (q, nodes_of-without_nodes rest name x e) refl
]

pub DueElsewhere-without_nodes :
    (n : NodeRef) (a : Instances) (name : String) (xs : List String)
    → DueElsewhere n a name xs
    → Due n (without_nodes a name) xs
DueElsewhere-without_nodes n a name [] p = p
DueElsewhere-without_nodes n a name (x ∷ xs) (inl (e, p)) =
    inl (rw (nodes_of-without_nodes a name x e) p)
DueElsewhere-without_nodes n a name (x ∷ xs) (inr p) =
    inr (DueElsewhere-without_nodes n a name xs p)

pub is_instance-without_nodes :
    (a : Instances) (name x : String)
    → is_instance a x ≡ true
    → is_instance (without_nodes a name) x ≡ true
is_instance-without_nodes [] name x p = p
is_instance-without_nodes ((other, nodes) ∷ rest) name x p = elim (Bool-cases (str_eq other name)) [
  | inl q ↦ rw q (elim (Bool-cases (str_eq other x)) [
    | inl e ↦ rw e refl
    | inr e ↦ rw e (is_instance-without_nodes rest name x (rw e at p))
  ])
  | inr q ↦ rw q (elim (Bool-cases (str_eq other x)) [
    | inl e ↦ rw e refl
    | inr e ↦ rw e (is_instance-without_nodes rest name x (rw e at p))
  ])
]
