-- ===== src/Fuse/Directory/Served.antt =====
-- The trees of nodes under filesystem/server/provider/fuse/filesystem whose nodes are all in a registry.
use Prim.Native.String.{String}
use mathlib.Core.Path.{subst}
use fuse_video_streamer.Base.{
  ℕ, ◌+◌, ◌<◌, ◌≡◌, inl, inr, true, List, [], ◌∷◌, ◌++◌, arith, length, length-snoc, Bool-cases,
  ◌==◌, some, get_elem?, set,
}
use fuse_video_streamer.Fuse.Registry.{directory, streamable, file, Instances, is_instance}
use fuse_video_streamer.Fuse.Directory.{Directory, Tree}
use fuse_video_streamer.Fuse.Directory.Registered.{Registered, Extends}

-- The services of the directory have registries that exist.
abbrev pub Served : Instances → Directory → Type 0
Served a d =
    (is_instance a d.directory_node_service.registry ≡ true)
    × (is_instance a d.streamable_node_service.registry ≡ true)
    × (is_instance a d.file_node_service.registry ≡ true)

abbrev pub AllServed : Instances → List Directory → Type 0
AllServed a [] = Unit {0}
AllServed a (d ∷ ds) = Served a d × AllServed a ds

-- With so many directories, streamable nodes and files.
pub record Kept (a : Instances) (ds : List Directory) (s f : ℕ) : Type 0 where
  pub served : AllServed a ds
  pub directories : (i : ℕ) → i < length ds → Registered (directory i) a
  pub streamables : (i : ℕ) → i < s → Registered (streamable i) a
  pub files : (i : ℕ) → i < f → Registered (file i) a

-- All nodes of the tree are registered.
abbrev pub IsKept : {R : Type 0} → Tree R → Type 0
IsKept t = Kept t.instances t.directories (length t.streamables) (length t.files)

Served-instances :
    (a b : Instances) (d : Directory)
    → ((name : String) → is_instance a name ≡ true → is_instance b name ≡ true)
    → Served a d
    → Served b d
Served-instances a b d more (x, y, z) = (more _ x, more _ y, more _ z)

pub AllServed-instances :
    (a b : Instances) (ds : List Directory)
    → ((name : String) → is_instance a name ≡ true → is_instance b name ≡ true)
    → AllServed a ds
    → AllServed b ds
AllServed-instances a b [] more p = tt
AllServed-instances a b (d ∷ ds) more (p, q) =
    (Served-instances a b d more p, AllServed-instances a b ds more q)

pub AllServed-Extends :
    (a b : Instances) (ds : List Directory) → Extends a b → AllServed a ds → AllServed b ds
AllServed-Extends a b ds e p = AllServed-instances a b ds e.1 p

pub Kept-Extends :
    (a b : Instances) (ds : List Directory) (s f : ℕ) → Extends a b → Kept a ds s f → Kept b ds s f
Kept-Extends a b ds s f e k = record {
  served = AllServed-Extends a b ds e k.served;
  directories = λ i p. e.0 (directory i) (k.directories i p);
  streamables = λ i p. e.0 (streamable i) (k.streamables i p);
  files = λ i p. e.0 (file i) (k.files i p);
}

pub AllServed-snoc :
    (a : Instances) (ds : List Directory) (d : Directory)
    → AllServed a ds
    → Served a d
    → AllServed a (ds ++ d ∷ [])
AllServed-snoc a [] d p q = (q, tt)
AllServed-snoc a (x ∷ ds) d p q = (p.0, AllServed-snoc a ds d p.1 q)

-- One more index below the length of a list, which is the list's old length.
below_snoc :
    (P : ℕ → Type 0) (k l : ℕ) → l ≡ k + 1 → ((i : ℕ) → i < k → P i) → P k → (i : ℕ) → i < l → P i
below_snoc P k l e old new i b = elim (Bool-cases (i == k)) [
  | inl q ↦ (let same : k ≡ i = ground arith in subst P same new)
  | inr q ↦ old i (ground arith)
]

pub all_snoc :
    {A : Type 0} (P : ℕ → Type 0) (xs : List A) (x : A)
    → ((i : ℕ) → i < length xs → P i)
    → P (length xs)
    → (i : ℕ) → i < length (xs ++ x ∷ [])
    → P i
all_snoc P xs x = below_snoc P (length xs) (length (xs ++ x ∷ [])) (length-snoc xs x)

pub AllServed-get :
    (a : Instances) (ds : List Directory) (i : ℕ) (d : Directory)
    → AllServed a ds
    → get_elem? ds i ≡ some d
    → Served a d
AllServed-get a [] i d s e = cc
AllServed-get a (x ∷ ds) ℕ.zero d s e = let same : x ≡ d = cc in subst (Served a) same s.0
AllServed-get a (x ∷ ds) (ℕ.suc i) d s e = AllServed-get a ds i d s.1 e

pub AllServed-set :
    (a : Instances) (ds : List Directory) (i : ℕ) (d : Directory)
    → AllServed a ds
    → Served a d
    → AllServed a (set ds i d)
AllServed-set a [] i d s p = s
AllServed-set a (x ∷ ds) ℕ.zero d s p = (p, s.1)
AllServed-set a (x ∷ ds) (ℕ.suc i) d s p = (s.0, AllServed-set a ds i d s.1 p)
