-- ===== src/Fuse/FileSystem/Closing.antt =====
-- What `Close` of filesystem/server/provider/fuse/filesystem/main.go leaves of the nodes.
use mathlib.Core.Path.{subst}
use fuse_video_streamer.Base.{
  ℕ, ◌<◌, ◌≡◌, refl, inl, inr, Bool, true, false, none, some, List, [], ◌∷◌, length,
  get_elem?-below, Each, At,
}
use fuse_video_streamer.Go.{Ended, returns, waits, crashes, when_returns}
use fuse_video_streamer.Stream.External.{Http, Ring}
use fuse_video_streamer.Fuse.Registry.{NodeRef, directory, streamable, file, Instances}
use fuse_video_streamer.Fuse.Directory.Registered.{In, Registered}
use fuse_video_streamer.Fuse.Directory.Served.{IsKept}
use fuse_video_streamer.Fuse.FileSystem.{
  FileSystem, Session, Runtime, close_node, close_all, close_registries, without_nodes,
  close_instances, close,
}
use fuse_video_streamer.Fuse.FileSystem.Follows.{
  IsClosedDirectory, IsClosedFile, IsClosedStreamable, IsSound, Follows-refl,
}
use fuse_video_streamer.Fuse.FileSystem.Nodes.{Closes, Closes-then, Only, close_node-Closes}

-- The goroutines of `CloseNodes` all run, and a map is gone through to its end.
pub record IsFair (rt : Runtime) : Type 0 where
  pub goroutines : (n : NodeRef) (ns : List NodeRef) → In n ns → In n (rt.goroutines ns)
  pub entries : (n : NodeRef) (a : Instances) → Registered n a → Registered n (rt.entries a)

shut_all :
    {A : Type 0} (P : A → Type 0) (xs : List A) (k : ℕ)
    → length xs ≡ k
    → ((i : ℕ) → i < k → At P xs i)
    → Each P xs
shut_all P xs k same at i x e = at i (subst (λ l. i < l) same (get_elem?-below xs i x e)) x e

module _ {R W B : Type 0} (http : Http W) (ring : Ring B) where
  close_all-Closes :
      (rt : Runtime) (ns : List NodeRef) (s : Session R W B)
      → IsSound s
      → Closes (λ n. In n ns) s (close_all http ring rt ns s)
  unfolding close_all
  close_all-Closes rt [] s w = (Follows-refl s w, λ n p. absurd p)
  close_all-Closes rt (n ∷ ns) s w =
      Closes-then (Only n) (λ m. In m ns) (λ m. In m (n ∷ ns)) s (close_node http ring rt n s)
        (close_all http ring rt ns) (close_node-Closes http ring rt n s w)
        (λ s' w'. close_all-Closes rt ns s' w') (λ m p. p)

  close_registries-Closes :
      (rt : Runtime) (a : Instances) (s : Session R W B)
      → IsFair rt
      → IsSound s
      → Closes (λ n. Registered n a) s (close_registries http ring rt a s)
  unfolding close_registries
  close_registries-Closes rt [] s fair w = (Follows-refl s w, λ n p. absurd p)
  close_registries-Closes rt ((name, ns) ∷ rest) s fair w =
      Closes-then (λ n. In n (rt.goroutines ns)) (λ n. Registered n rest)
        (λ n. Registered n ((name, ns) ∷ rest)) s (close_all http ring rt (rt.goroutines ns) s)
        (close_registries http ring rt rest) (close_all-Closes rt (rt.goroutines ns) s w)
        (λ s' w'. close_registries-Closes rt rest s' fair w')
        (λ n p. elim p [ inl q ↦ inl (fair.goroutines n ns q) | inr q ↦ inr q ])

  -- The file system is closed, and so is every node, each well-formed; there are as many as there
  -- were, and the roots are as they were.
  pub record IsDown (s : Session R W B) (fs : FileSystem) (s' : Session R W B) : Type 0 where
    pub closed : fs.closed ≡ true
    pub sound : IsSound s'
    pub directories : Each IsClosedDirectory s'.tree.directories
    pub files : Each IsClosedFile s'.tree.files
    pub streamables : Each IsClosedStreamable s'.tree.streamables
    pub same_roots : s'.roots ≡ s.roots
    pub same_directories : length s'.tree.directories ≡ length s.tree.directories
    pub same_files : length s'.tree.files ≡ length s.tree.files
    pub same_streamables : length s'.tree.streamables ≡ length s.tree.streamables

  abbrev pub Down : Session R W B → Ended (FileSystem × Session R W B) → Type 0
  Down s waits = Unit {0}
  Down s (crashes p) = ⊥
  Down s (returns (fs, s')) = IsDown s fs s'

  down :
      (s : Session R W B) (r : Ended (Session R W B))
      → IsKept s.tree
      → Closes (λ n. Registered n s.tree.instances) s r
      → Down s (
          when_returns
            (when_returns r (λ s'. returns (without_nodes http ring s')))
            (λ s'. returns (record { service = none; closed = true }, s')))
  down s waits k c = tt
  down s (crashes p) k c = c
  down s (returns s') k (f, c) = record {
    closed = refl;
    sound = f.sound;
    directories =
        shut_all IsClosedDirectory s'.tree.directories (length s.tree.directories) f.directories
          (λ i b. c (directory i) (k.directories i b));
    files =
        shut_all IsClosedFile s'.tree.files (length s.tree.files) f.files
          (λ i b. c (file i) (k.files i b));
    streamables =
        shut_all IsClosedStreamable s'.tree.streamables (length s.tree.streamables) f.streamables
          (λ i b. c (streamable i) (k.streamables i b));
    same_roots = f.roots;
    same_directories = f.directories;
    same_files = f.files;
    same_streamables = f.streamables;
  }

  Closes-mono :
      (P Q : NodeRef → Type 0) (s : Session R W B) (r : Ended (Session R W B))
      → Closes P s r
      → ((n : NodeRef) → Q n → P n)
      → Closes Q s r
  Closes-mono P Q s waits c h = tt
  Closes-mono P Q s (crashes p) c h = c
  Closes-mono P Q s (returns s') (f, c) h = (f, λ n q. c n (h n q))

  -- On a session whose nodes are all registered and well-formed, `Close` of an open file system leaves
  -- every node closed.
  pub close-Down :
      (rt : Runtime) (fs : FileSystem) (c : Bool) (s : Session R W B)
      → IsFair rt
      → IsKept s.tree
      → IsSound s
      → fs.closed ≡ false
      → fs.service ≡ some c
      → Down s (close http ring rt fs s)
  unfolding close close_instances
  close-Down rt fs c s fair k w running served =
      simp (running, served)
        (down s (close_registries http ring rt (rt.entries s.tree.instances) s) k (
          Closes-mono (λ n. Registered n (rt.entries s.tree.instances))
            (λ n. Registered n s.tree.instances) s
            (close_registries http ring rt (rt.entries s.tree.instances) s)
            (close_registries-Closes rt (rt.entries s.tree.instances) s fair w)
            (λ n. fair.entries n s.tree.instances)))
