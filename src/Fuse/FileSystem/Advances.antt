-- ===== src/Fuse/FileSystem/Advances.antt =====
-- From one session of filesystem/server/provider/fuse/filesystem to the one that a request leaves.
use mathlib.Core.Path.{subst}
use fuse_video_streamer.Base.{
  ℕ, ◌≡◌, sym, inl, inr, Option, some, List, arith, length, length-set, get_elem?, set, set-Each,
  true, Lasts, Lasts-refl, Lasts-set, Bool-cases,
}
use fuse_video_streamer.Go.{Outcome}
use fuse_video_streamer.Stream.Core.{Stream}
use fuse_video_streamer.Fuse.Registry.{Instances}
use fuse_video_streamer.Fuse.Streamable.Handle.{World}
use fuse_video_streamer.Fuse.Streamable.World.{Extends}
use fuse_video_streamer.Fuse.Streamable.Node as Streamable
use fuse_video_streamer.Fuse.Streamable.Node.Closing as Streamables
use fuse_video_streamer.Fuse.File.Node as File
use fuse_video_streamer.Fuse.File.Node.Closing as Files
use fuse_video_streamer.Fuse.Directory.{Directory, Tree}
use fuse_video_streamer.Fuse.Directory.Requests
use fuse_video_streamer.Fuse.Directory.Served.{
  Served, AllServed, AllServed-get, AllServed-set, Kept, IsKept,
}
use fuse_video_streamer.Fuse.Directory.Tidy.{IsTidy}
use fuse_video_streamer.Fuse.Directory.Registered
use fuse_video_streamer.Fuse.Directory.Grows.{
  IsFresh, is_closed_directory, is_closed_streamable, is_closed_file,
}
use fuse_video_streamer.Fuse.Root.{Root}
use fuse_video_streamer.Fuse.Root.Made.{Grown}
use fuse_video_streamer.Fuse.FileSystem.{Session}
use fuse_video_streamer.Fuse.FileSystem.Follows.{IsSound}
use fuse_video_streamer.Fuse.FileSystem.Reach.{with_tree, after_directory, after_file_open}

fresh-IsWell :
    {W B : Type 0} (ss : List (Stream W B)) (n : Streamable.Node)
    → IsFresh n
    → Streamables.IsWell ss n
fresh-IsWell ss n (identifier, size, e) =
    subst (Streamables.IsWell ss) (sym e) (Streamables.new_node-IsWell ss identifier size)

pub open_directory-Served :
    (a : Instances) (id : ℕ) (d : Directory)
    → Served a d
    → Served a (Requests.open_directory id d).1
unfolding Requests.open_directory
open_directory-Served a id d s = elim (Bool-cases d.closed) [ inl c ↦ simp c s | inr c ↦ simp c s ]

pub open_directory-keeps_closed :
    (id : ℕ) (d : Directory) → d.closed ≡ true → (Requests.open_directory id d).1.closed ≡ true
unfolding Requests.open_directory
open_directory-keeps_closed id d c = simp c

set_directory-Kept :
    {R : Type 0} (t : Tree R) (i : ℕ) (d : Directory)
    → AllServed t.instances (set t.directories i d)
    → IsKept t
    → Kept t.instances (set t.directories i d) (length t.streamables) (length t.files)
set_directory-Kept t i d served k = record {
  served = served;
  directories = λ j b. k.directories j (omega (arith, b, length-set t.directories i d));
  streamables = k.streamables;
  files = k.files;
}

module _ {R W B : Type 0} where
  -- Nothing is lost from the registries; the nodes stay registered and well-formed, if they were; no node
  -- goes, and none is opened again.
  pub record Advances (s s' : Session R W B) : Type 0 where
    pub registries : Registered.Extends s.tree.instances s'.tree.instances
    pub served :
        AllServed s.tree.instances s.tree.directories
        → AllServed s'.tree.instances s'.tree.directories
    pub kept : IsKept s.tree → IsKept s'.tree
    pub sound : IsSound s → IsSound s'
    pub directories_last : Lasts is_closed_directory s.tree.directories s'.tree.directories
    pub streamables_last : Lasts is_closed_streamable s.tree.streamables s'.tree.streamables
    pub files_last : Lasts is_closed_file s.tree.files s'.tree.files

  pub Grown-Advances :
      {A : Type 0} (s : Session R W B) (r : Outcome A × Tree R)
      → Grown s.tree r
      → Advances s (with_tree s r.1)
  Grown-Advances s (x, t) g = record {
    registries = g.registries;
    served = g.served;
    kept = g.kept;
    sound = λ w. (
      g.files_well w.0,
      λ i n q. elim (g.streamables_fresh i n q) [
        | inl fresh ↦ fresh-IsWell s.world.streams n fresh
        | inr old ↦ w.1 i n old
      ],
      g.directories_tidy w.2,
    );
    directories_last = g.directories_last;
    streamables_last = g.streamables_last;
    files_last = g.files_last;
  }

  pub after_directory-Advances :
      (s : Session R W B) (i : ℕ) (d : Directory) (r : Outcome ℕ × Directory × ℕ)
      → get_elem? s.tree.directories i ≡ some d
      → (Served s.tree.instances d → Served s.tree.instances r.1)
      → (IsTidy d → IsTidy r.1)
      → (d.closed ≡ true → r.1.closed ≡ true)
      → Advances s (after_directory s i r)
  after_directory-Advances s i d (x, d', id) e same tidy still =
      let served' = λ (p : AllServed s.tree.instances s.tree.directories).
        AllServed-set s.tree.instances s.tree.directories i d' p
          (same (AllServed-get s.tree.instances s.tree.directories i d p e)) in
      record {
        registries = Registered.Extends-refl s.tree.instances;
        served = served';
        kept = λ k. set_directory-Kept s.tree i d' (served' k.served) k;
        sound = λ w. (w.0, w.1, set-Each IsTidy s.tree.directories i d' (tidy (w.2 i d e)) w.2);
        directories_last = Lasts-set is_closed_directory s.tree.directories i d' (λ y q c.
            still (let at : y ≡ d = cc in subst (λ (z : Directory). z.closed ≡ true) at c));
        streamables_last = Lasts-refl is_closed_streamable s.tree.streamables;
        files_last = Lasts-refl is_closed_file s.tree.files;
      }

  pub after_file_open-Advances :
      (s : Session R W B) (i : ℕ) (n : File.Node) (r : Outcome (Option ℕ) × File.Node × ℕ)
      → get_elem? s.tree.files i ≡ some n
      → (Files.IsWell n → Files.IsWell r.1)
      → (n.closed ≡ true → r.1.closed ≡ true)
      → Advances s (after_file_open s i r)
  after_file_open-Advances s i n (x, n', id) e well still = record {
    registries = Registered.Extends-refl s.tree.instances;
    served = λ p. p;
    kept = λ k. record {
      served = k.served;
      directories = k.directories;
      streamables = k.streamables;
      files = λ j b. k.files j (omega (arith, b, length-set s.tree.files i n'));
    };
    sound = λ w. (set-Each Files.IsWell s.tree.files i n' (well (w.0 i n e)) w.0, w.1, w.2);
    directories_last = Lasts-refl is_closed_directory s.tree.directories;
    streamables_last = Lasts-refl is_closed_streamable s.tree.streamables;
    files_last =
        Lasts-set is_closed_file s.tree.files i n'
          (λ y q c. still (let at : y ≡ n = cc in subst (λ (z : File.Node). z.closed ≡ true) at c));
  }

  pub streamable-Advances :
      (s : Session R W B) (i : ℕ) (n n' : Streamable.Node) (w : World W B) (r : R)
      → get_elem? s.tree.streamables i ≡ some n
      → Streamables.IsWell w.streams n'
      → Extends s.world.streams w.streams
      → (n.closed ≡ true → n'.closed ≡ true)
      → Advances s (record s {
        tree = record s.tree { streamables = set s.tree.streamables i n'; remote = r };
        world = w;
      })
  streamable-Advances s i n n' w r e well more still = record {
    registries = Registered.Extends-refl s.tree.instances;
    served = λ p. p;
    kept = λ k. record {
      served = k.served;
      directories = k.directories;
      streamables = λ j b. k.streamables j (omega (arith, b, length-set s.tree.streamables i n'));
      files = k.files;
    };
    sound = λ v. (
      v.0,
      set-Each (Streamables.IsWell w.streams) s.tree.streamables i n' well
          (λ j m q. Streamables.IsWell-Extends s.world.streams w.streams m more (v.1 j m q)),
      v.2,
    );
    directories_last = Lasts-refl is_closed_directory s.tree.directories;
    streamables_last = Lasts-set is_closed_streamable s.tree.streamables i n' (λ y q c.
        still (let at : y ≡ n = cc in subst (λ (z : Streamable.Node). z.closed ≡ true) at c));
    files_last = Lasts-refl is_closed_file s.tree.files;
  }

  -- Other roots leave the nodes as they are.
  pub with_roots-Advances :
      (s : Session R W B) (roots : List (Root R)) → Advances s (record s { roots = roots })
  with_roots-Advances s roots = record {
    registries = Registered.Extends-refl s.tree.instances;
    served = λ p. p;
    kept = λ k. k;
    sound = λ w. w;
    directories_last = Lasts-refl is_closed_directory s.tree.directories;
    streamables_last = Lasts-refl is_closed_streamable s.tree.streamables;
    files_last = Lasts-refl is_closed_file s.tree.files;
  }

  pub with_remote-Advances :
      (s : Session R W B) (r : R) → Advances s (with_tree s (record s.tree { remote = r }))
  with_remote-Advances s r = record {
    registries = Registered.Extends-refl s.tree.instances;
    served = λ p. p;
    kept = λ k. k;
    sound = λ w. w;
    directories_last = Lasts-refl is_closed_directory s.tree.directories;
    streamables_last = Lasts-refl is_closed_streamable s.tree.streamables;
    files_last = Lasts-refl is_closed_file s.tree.files;
  }
