-- ===== src/Fuse/Directory/Grows.antt =====
-- From one tree of nodes to a later one, for filesystem/server/provider/fuse/filesystem.
use mathlib.Core.Path.{subst}
use fuse_video_streamer.Base.{
  ℕ, ◌≡◌, inl, inr, some, List, [], ◌∷◌, ◌++◌, ◌⊎◌, sym, get_elem?, get_elem?-snoc, Each, Bool,
  Lasts, Lasts-refl, Lasts-trans,
}
use fuse_video_streamer.Fuse.File.Node as File
use fuse_video_streamer.Fuse.File.Node.Closing.{IsWell, new_node-IsWell}
use fuse_video_streamer.Fuse.Streamable.Node as Streamable
use fuse_video_streamer.Fuse.Directory.{Directory, Tree}
use fuse_video_streamer.Fuse.Directory.Served.{AllServed, IsKept}
use fuse_video_streamer.Fuse.Directory.Tidy.{IsTidy}
use fuse_video_streamer.Fuse.Directory.Registered.{Extends, Extends-refl, Extends-trans}

-- A node that `New` of a streamable node made.
abbrev pub IsFresh : Streamable.Node → Type 0
IsFresh n = (identifier : ℕ) × (size : ℕ) × (n ≡ Streamable.new_node identifier size)

-- Every streamable node is an old one, at its index, or a fresh one.
abbrev pub OldOrFresh : List Streamable.Node → List Streamable.Node → Type 0
OldOrFresh old ns =
    (i : ℕ) (n : Streamable.Node) → get_elem? ns i ≡ some n → IsFresh n ⊎ (get_elem? old i ≡ some n)

OldOrFresh-trans : (a b c : List Streamable.Node) → OldOrFresh a b → OldOrFresh b c → OldOrFresh a c
OldOrFresh-trans a b c f g i n e = elim (g i n e) [ inl q ↦ inl q | inr q ↦ f i n q ]

pub OldOrFresh-snoc :
    (a : List Streamable.Node) (identifier size : ℕ)
    → OldOrFresh a (a ++ Streamable.new_node identifier size ∷ [])
OldOrFresh-snoc a identifier size i n e = elim (get_elem?-snoc a i _ n e) [
  | inl q ↦ inl (identifier, size, sym q)
  | inr q ↦ inr q
]

abbrev pub is_closed_directory : Directory → Bool
is_closed_directory d = d.closed

abbrev pub is_closed_streamable : Streamable.Node → Bool
is_closed_streamable n = n.closed

abbrev pub is_closed_file : File.Node → Bool
is_closed_file n = n.closed

-- Nothing is lost from the registries; the directories stay served, and the nodes registered, if they
-- were; file nodes stay well-formed and directories tidy, and the streamable nodes are the old ones and fresh ones. No
-- node goes, and none is opened again.
pub record Grows {R : Type 0} (t u : Tree R) : Type 0 where
  pub registries : Extends t.instances u.instances
  pub served : AllServed t.instances t.directories → AllServed u.instances u.directories
  pub kept : IsKept t → IsKept u
  pub files_well : Each IsWell t.files → Each IsWell u.files
  pub directories_tidy : Each IsTidy t.directories → Each IsTidy u.directories
  pub streamables_fresh : OldOrFresh t.streamables u.streamables
  pub directories_last : Lasts is_closed_directory t.directories u.directories
  pub streamables_last : Lasts is_closed_streamable t.streamables u.streamables
  pub files_last : Lasts is_closed_file t.files u.files

pub Grows-refl : {R : Type 0} (t : Tree R) → Grows t t
Grows-refl t = record {
  registries = Extends-refl t.instances;
  served = λ s. s;
  kept = λ k. k;
  files_well = λ w. w;
  directories_tidy = λ w. w;
  streamables_fresh = λ i n e. inr e;
  directories_last = Lasts-refl is_closed_directory t.directories;
  streamables_last = Lasts-refl is_closed_streamable t.streamables;
  files_last = Lasts-refl is_closed_file t.files;
}

pub Grows-trans : {R : Type 0} (a b c : Tree R) → Grows a b → Grows b c → Grows a c
Grows-trans a b c f g = record {
  registries = Extends-trans a.instances b.instances c.instances f.registries g.registries;
  served = λ s. g.served (f.served s);
  kept = λ k. g.kept (f.kept k);
  files_well = λ w. g.files_well (f.files_well w);
  directories_tidy = λ w. g.directories_tidy (f.directories_tidy w);
  streamables_fresh =
      OldOrFresh-trans a.streamables b.streamables c.streamables f.streamables_fresh
        g.streamables_fresh;
  directories_last =
      Lasts-trans is_closed_directory a.directories b.directories c.directories f.directories_last
        g.directories_last;
  streamables_last =
      Lasts-trans is_closed_streamable a.streamables b.streamables c.streamables f.streamables_last
        g.streamables_last;
  files_last = Lasts-trans is_closed_file a.files b.files c.files f.files_last g.files_last;
}

pub new_node-snoc :
    (fs : List File.Node) (identifier size : ℕ)
    → Each IsWell fs
    → Each IsWell (fs ++ File.new_node identifier size ∷ [])
new_node-snoc fs identifier size w i n e = elim (get_elem?-snoc fs i _ n e) [
  | inl q ↦ subst IsWell q (new_node-IsWell identifier size)
  | inr q ↦ w i n q
]
