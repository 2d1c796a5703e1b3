-- ===== src/Fuse/Root/Clients.antt =====
-- Listing and looking up clients in filesystem/server/provider/fuse/filesystem/root/node/main.go.
use Prim.Native.String.{String}
use fuse_video_streamer.Base.{◌≡◌, refl, ◌⊎◌, inl, inr, List, [], ◌∷◌, Bool-cases}
use fuse_video_streamer.Go.{Outcome, ok, err, panics}
use fuse_video_streamer.Client.{Client}
use fuse_video_streamer.Client.Repository.{
  ClientRepository, get_client_by_name, get_clients, Unnamed, Finds, get_client_by_name-Finds,
}
use fuse_video_streamer.Fuse.Directory.{Tree}
use fuse_video_streamer.Fuse.Directory.Handle.{Entry}
use fuse_video_streamer.Fuse.Root.{Root, top_of, lookup, entries_of, read_dir_all}

-- The name is that of an entry.
abbrev pub Lists : List Entry → String → Type 0
Lists [] name = ⊥
Lists (e ∷ es) name = (e.name ≡ name) ⊎ Lists es name

module _ {R : Type 0} where
  listed-named :
      (cs : List (Client R)) (name : String) → Lists (entries_of cs) name → Unnamed cs name → ⊥
  listed-named [] name l u = l
  listed-named (c ∷ cs) name (inl e) u = u.0 e
  listed-named (c ∷ cs) name (inr l) u = listed-named cs name l u.1

  found-client :
      (cs : ClientRepository R) (name : String) (r : Outcome (Client R))
      → Finds cs name r
      → Lists (entries_of (get_clients cs)) name
      → (c : Client R) × (r ≡ ok c) × (c.name ≡ name)
  found-client cs name (ok c) (before, after, split, is, others) l = (c, refl, is)
  found-client cs name (err e) (is, others) l = absurd (listed-named (get_clients cs) name l others)
  found-client cs name (panics p) f l = absurd f

  -- A name that ReadDirAll of the root lists is looked up by asking the file system of a client of
  -- that name for its root.
  pub listed_clients_resolve :
      (root : Root R) (name : String) (t : Tree R)
      → Lists (read_dir_all root) name
      → (c : Client R) × (c.name ≡ name)
        × (lookup root name t
            ≡ top_of c
                (c.file_system.root t.remote name).0
                (record t { remote = (c.file_system.root t.remote name).1 }))
  unfolding lookup read_dir_all
  listed_clients_resolve root name t l = elim (Bool-cases root.closed) [
    | inl c ↦ absurd (simp c at l)
    | inr c ↦
        let (client, found, named) =
          found-client root.clients name (get_client_by_name root.clients name)
            (get_client_by_name-Finds root.clients name) (simp c at l) in
        (client, named, simp (c, found, named) refl)
  ]
