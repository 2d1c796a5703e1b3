-- ===== src/Fuse/FileSystem/Overlap/Shut.antt =====
-- Nodes of filesystem/server/provider/fuse/filesystem that are there, and closed, behind a request and
-- behind the `Close` of a node.
use mathlib.Core.Path.{subst}
use fuse_video_streamer.Base.{
  ℕ, ◌≡◌, Bool, true, some, List, length, get_elem?, get_elem?-below, get_elem?-exists, Lasts, At,
}
use fuse_video_streamer.Fuse.Registry.{NodeRef, directory, streamable, file, Instances}
use fuse_video_streamer.Fuse.Directory.Grows.{
  is_closed_directory, is_closed_streamable, is_closed_file,
}
use fuse_video_streamer.Fuse.FileSystem.{Session}
use fuse_video_streamer.Fuse.FileSystem.Follows.{Follows, ShutAt}
use fuse_video_streamer.Fuse.FileSystem.Advances.{Advances}
use fuse_video_streamer.Fuse.FileSystem.Overlap.{with_instances}

-- Something stands at the index; and something of which the test holds.
abbrev pub Stands : {A : Type 0} → List A → ℕ → Type 0
Stands {A} xs i = (x : A) × (get_elem? xs i ≡ some x)

abbrev pub StandsShut : {A : Type 0} → (A → Bool) → List A → ℕ → Type 0
StandsShut {A} test xs i = (x : A) × (get_elem? xs i ≡ some x) × (test x ≡ true)

Lasts-StandsShut :
    {A : Type 0} (test : A → Bool) (xs ys : List A) (i : ℕ)
    → Lasts test xs ys
    → StandsShut test xs i
    → StandsShut test ys i
Lasts-StandsShut test xs ys i h (x, e, c) = let (y, q, k) = h i x e in (y, q, k c)

Lasts-Stands :
    {A : Type 0} (test : A → Bool) (xs ys : List A) (i : ℕ)
    → Lasts test xs ys
    → Stands xs i
    → Stands ys i
Lasts-Stands test xs ys i h (x, e) = let (y, q, k) = h i x e in (y, q)

same_length-Stands :
    {A : Type 0} (xs ys : List A) (i : ℕ) → length ys ≡ length xs → Stands xs i → Stands ys i
same_length-Stands xs ys i same (x, e) = get_elem?-exists ys i (rw same (get_elem?-below xs i x e))

At-StandsShut :
    {A : Type 0} (test : A → Bool) (xs : List A) (i : ℕ)
    → Stands xs i
    → At (λ x. test x ≡ true) xs i
    → StandsShut test xs i
At-StandsShut test xs i (x, e) at = (x, e, at x e)

StandsShut-At :
    {A : Type 0} (test : A → Bool) (xs : List A) (i : ℕ)
    → StandsShut test xs i
    → At (λ x. test x ≡ true) xs i
StandsShut-At test xs i (x, e, c) y q = let same : x ≡ y = cc in subst (λ z. test z ≡ true) same c

module _ {R W B : Type 0} where
  -- The node was made.
  abbrev pub IsThere : NodeRef → Session R W B → Type 0
  IsThere (directory i) s = Stands s.tree.directories i
  IsThere (streamable i) s = Stands s.tree.streamables i
  IsThere (file i) s = Stands s.tree.files i

  -- The node was made, and is closed.
  abbrev pub IsShut : NodeRef → Session R W B → Type 0
  IsShut (directory i) s = StandsShut is_closed_directory s.tree.directories i
  IsShut (streamable i) s = StandsShut is_closed_streamable s.tree.streamables i
  IsShut (file i) s = StandsShut is_closed_file s.tree.files i

  pub Advances-IsThere :
      (n : NodeRef) (s t : Session R W B) → Advances s t → IsThere n s → IsThere n t
  Advances-IsThere (directory i) s t a h =
      Lasts-Stands is_closed_directory s.tree.directories t.tree.directories i a.directories_last h
  Advances-IsThere (streamable i) s t a h =
      Lasts-Stands is_closed_streamable s.tree.streamables t.tree.streamables i a.streamables_last h
  Advances-IsThere (file i) s t a h =
      Lasts-Stands is_closed_file s.tree.files t.tree.files i a.files_last h

  pub Advances-IsShut : (n : NodeRef) (s t : Session R W B) → Advances s t → IsShut n s → IsShut n t
  Advances-IsShut (directory i) s t a h =
      Lasts-StandsShut is_closed_directory s.tree.directories t.tree.directories i
        a.directories_last h
  Advances-IsShut (streamable i) s t a h =
      Lasts-StandsShut is_closed_streamable s.tree.streamables t.tree.streamables i
        a.streamables_last h
  Advances-IsShut (file i) s t a h =
      Lasts-StandsShut is_closed_file s.tree.files t.tree.files i a.files_last h

  pub Follows-IsThere :
      (n : NodeRef) (s t : Session R W B) → Follows s t → IsThere n s → IsThere n t
  Follows-IsThere (directory i) s t f h =
      same_length-Stands s.tree.directories t.tree.directories i f.directories h
  Follows-IsThere (streamable i) s t f h =
      same_length-Stands s.tree.streamables t.tree.streamables i f.streamables h
  Follows-IsThere (file i) s t f h = same_length-Stands s.tree.files t.tree.files i f.files h

  pub ShutAt-IsShut : (n : NodeRef) (s : Session R W B) → IsThere n s → ShutAt n s → IsShut n s
  ShutAt-IsShut (directory i) s h c = At-StandsShut is_closed_directory s.tree.directories i h c
  ShutAt-IsShut (streamable i) s h c = At-StandsShut is_closed_streamable s.tree.streamables i h c
  ShutAt-IsShut (file i) s h c = At-StandsShut is_closed_file s.tree.files i h c

  IsShut-ShutAt : (n : NodeRef) (s : Session R W B) → IsShut n s → ShutAt n s
  IsShut-ShutAt (directory i) s h = StandsShut-At is_closed_directory s.tree.directories i h
  IsShut-ShutAt (streamable i) s h = StandsShut-At is_closed_streamable s.tree.streamables i h
  IsShut-ShutAt (file i) s h = StandsShut-At is_closed_file s.tree.files i h

  pub Follows-IsShut :
      (n : NodeRef) (s t : Session R W B) → Follows s t → IsThere n s → IsShut n s → IsShut n t
  Follows-IsShut n s t f there h =
      ShutAt-IsShut n t (Follows-IsThere n s t f there) (f.stays n (IsShut-ShutAt n s h))

  -- Other registries leave the nodes as they are.
  pub with_instances-IsShut :
      (n : NodeRef) (s : Session R W B) (a : Instances) → IsShut n s → IsShut n (with_instances s a)
  with_instances-IsShut (directory i) s a h = h
  with_instances-IsShut (streamable i) s a h = h
  with_instances-IsShut (file i) s a h = h

  pub with_instances-IsThere :
      (n : NodeRef) (s : Session R W B) (a : Instances)
      → IsThere n s
      → IsThere n (with_instances s a)
  with_instances-IsThere (directory i) s a h = h
  with_instances-IsThere (streamable i) s a h = h
  with_instances-IsThere (file i) s a h = h
