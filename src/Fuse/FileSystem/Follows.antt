-- ===== src/Fuse/FileSystem/Follows.antt =====
-- From one state of the nodes of filesystem/server/provider/fuse/filesystem to a later one in which some
-- are closed.
use fuse_video_streamer.Base.{
  ℕ, ◌≡◌, refl, ◌∙◌, true, length, length-set, set, Each, At, set-At, set-Each,
}
use fuse_video_streamer.Fuse.Registry.{NodeRef, directory, streamable, file}
use fuse_video_streamer.Fuse.Streamable.Handle.{World}
use fuse_video_streamer.Fuse.Streamable.World.{Extends}
use fuse_video_streamer.Fuse.Streamable.Node as Streamable
use fuse_video_streamer.Fuse.Streamable.Node.Closing as Streamables
use fuse_video_streamer.Fuse.File.Node as File
use fuse_video_streamer.Fuse.File.Node.Closing as Files
use fuse_video_streamer.Fuse.Directory.{Directory}
use fuse_video_streamer.Fuse.Directory.Tidy.{IsTidy}
use fuse_video_streamer.Fuse.Directory.Served.{AllServed}
use fuse_video_streamer.Fuse.FileSystem.{Session}

abbrev pub IsClosedDirectory : Directory → Type 0
IsClosedDirectory d = d.closed ≡ true

abbrev pub IsClosedFile : File.Node → Type 0
IsClosedFile n = n.closed ≡ true

abbrev pub IsClosedStreamable : Streamable.Node → Type 0
IsClosedStreamable n = n.closed ≡ true

module _ {R W B : Type 0} where
  -- The node that the reference stands for is closed.
  abbrev pub ShutAt : NodeRef → Session R W B → Type 0
  ShutAt (directory i) s = At IsClosedDirectory s.tree.directories i
  ShutAt (file i) s = At IsClosedFile s.tree.files i
  ShutAt (streamable i) s = At IsClosedStreamable s.tree.streamables i

  -- The file nodes and the streamable nodes are well-formed, and the directories tidy.
  abbrev pub IsSound : Session R W B → Type 0
  IsSound s =
      Each Files.IsWell s.tree.files
      × Each (Streamables.IsWell s.world.streams) s.tree.streamables
      × Each IsTidy s.tree.directories

  -- The session is sound, its nodes, registries and roots are those of the other one, and no node was opened
  -- again.
  pub record Follows (s s' : Session R W B) : Type 0 where
    pub sound : IsSound s'
    pub stays : (n : NodeRef) → ShutAt n s → ShutAt n s'
    pub directories : length s'.tree.directories ≡ length s.tree.directories
    pub files : length s'.tree.files ≡ length s.tree.files
    pub streamables : length s'.tree.streamables ≡ length s.tree.streamables
    pub registries : s'.tree.instances ≡ s.tree.instances
    pub roots : s'.roots ≡ s.roots
    pub served :
        AllServed s.tree.instances s.tree.directories
        → AllServed s'.tree.instances s'.tree.directories

  pub Follows-refl : (s : Session R W B) → IsSound s → Follows s s
  Follows-refl s w = record {
    sound = w;
    stays = λ n c. c;
    directories = refl;
    files = refl;
    streamables = refl;
    registries = refl;
    roots = refl;
    served = λ p. p;
  }

  pub Follows-trans : (a b c : Session R W B) → Follows a b → Follows b c → Follows a c
  Follows-trans a b c f g = record {
    sound = g.sound;
    stays = λ n p. g.stays n (f.stays n p);
    directories = g.directories ∙ f.directories;
    files = g.files ∙ f.files;
    streamables = g.streamables ∙ f.streamables;
    registries = g.registries ∙ f.registries;
    roots = g.roots ∙ f.roots;
    served = λ p. g.served (f.served p);
  }

  abbrev pub with_directory : Session R W B → ℕ → Directory → Session R W B
  with_directory s i d = record s {
    tree = record s.tree { directories = set s.tree.directories i d };
  }

  abbrev pub with_file : Session R W B → ℕ → File.Node → Session R W B
  with_file s i n = record s { tree = record s.tree { files = set s.tree.files i n } }

  abbrev pub with_streamable : Session R W B → ℕ → Streamable.Node → World W B → Session R W B
  with_streamable s i n w = record s {
    tree = record s.tree { streamables = set s.tree.streamables i n };
    world = w;
  }

  with_directory-ShutAt :
      (s : Session R W B) (i : ℕ) (d : Directory)
      → d.closed ≡ true
      → (n : NodeRef) → ShutAt n s
      → ShutAt n (with_directory s i d)
  with_directory-ShutAt s i d c (directory j) p =
      set-At IsClosedDirectory s.tree.directories i j d c p
  with_directory-ShutAt s i d c (file j) p = p
  with_directory-ShutAt s i d c (streamable j) p = p

  with_file-ShutAt :
      (s : Session R W B) (i : ℕ) (n : File.Node)
      → n.closed ≡ true
      → (m : NodeRef) → ShutAt m s
      → ShutAt m (with_file s i n)
  with_file-ShutAt s i n c (directory j) p = p
  with_file-ShutAt s i n c (file j) p = set-At IsClosedFile s.tree.files i j n c p
  with_file-ShutAt s i n c (streamable j) p = p

  with_streamable-ShutAt :
      (s : Session R W B) (i : ℕ) (n : Streamable.Node) (w : World W B)
      → n.closed ≡ true
      → (m : NodeRef) → ShutAt m s
      → ShutAt m (with_streamable s i n w)
  with_streamable-ShutAt s i n w c (directory j) p = p
  with_streamable-ShutAt s i n w c (file j) p = p
  with_streamable-ShutAt s i n w c (streamable j) p =
      set-At IsClosedStreamable s.tree.streamables i j n c p

  pub with_directory-Follows :
      (s : Session R W B) (i : ℕ) (d : Directory)
      → IsSound s
      → d.closed ≡ true
      → IsTidy d
      → (AllServed s.tree.instances s.tree.directories
          → AllServed s.tree.instances (set s.tree.directories i d))
      → Follows s (with_directory s i d)
  with_directory-Follows s i d w c tidy p = record {
    sound = (w.0, w.1, set-Each IsTidy s.tree.directories i d tidy w.2);
    stays = with_directory-ShutAt s i d c;
    directories = length-set s.tree.directories i d;
    files = refl;
    streamables = refl;
    registries = refl;
    roots = refl;
    served = p;
  }

  pub with_file-Follows :
      (s : Session R W B) (i : ℕ) (n : File.Node)
      → IsSound s
      → n.closed ≡ true
      → Files.IsWell n
      → Follows s (with_file s i n)
  with_file-Follows s i n w c well = record {
    sound = (set-Each Files.IsWell s.tree.files i n well w.0, w.1, w.2);
    stays = with_file-ShutAt s i n c;
    directories = refl;
    files = length-set s.tree.files i n;
    streamables = refl;
    registries = refl;
    roots = refl;
    served = λ p. p;
  }

  pub with_streamable-Follows :
      (s : Session R W B) (i : ℕ) (n : Streamable.Node) (w : World W B)
      → IsSound s
      → n.closed ≡ true
      → Streamables.IsWell w.streams n
      → Extends s.world.streams w.streams
      → Follows s (with_streamable s i n w)
  with_streamable-Follows s i n w (fs, ss, ds) c well more = record {
    sound = (
      fs,
      set-Each (Streamables.IsWell w.streams) s.tree.streamables i n well
          (λ j m e. Streamables.IsWell-Extends s.world.streams w.streams m more (ss j m e)),
      ds,
    );
    stays = with_streamable-ShutAt s i n w c;
    directories = refl;
    files = refl;
    streamables = length-set s.tree.streamables i n;
    registries = refl;
    roots = refl;
    served = λ p. p;
  }
