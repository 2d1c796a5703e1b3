-- ===== src/Fuse/Root/Made.antt =====
-- A `Lookup` of filesystem/server/provider/fuse/filesystem/root/node/main.go and the registries.
use Prim.Native.String.{String}
use fuse_video_streamer.Base.{inl, inr, Option, none, some, Bool-cases}
use fuse_video_streamer.Go.{Error, Outcome, ok, err, panics}
use fuse_video_streamer.Client.{Client, Node}
use fuse_video_streamer.Client.Repository.{get_client_by_name}
use fuse_video_streamer.Fuse.Directory.{Tree}
use fuse_video_streamer.Fuse.Directory.Kept.{
  Makes, with_remote-Grows, new_service-Makes, new_directory-Makes,
}
use fuse_video_streamer.Fuse.Directory.Grows.{Grows, Grows-refl, Grows-trans}
use fuse_video_streamer.Fuse.Root.{Root, top_of, top_of_client, lookup}

module _ {R : Type 0} where
  top_of-Makes :
      (client : Client R) (answer : Option Node × Error) (t : Tree R)
      → Makes client t (top_of client answer t)
  top_of-Makes client (n, some e) t = Grows-refl t
  top_of-Makes client (none, none) t = new_service-Makes client t _ (λ s t' e i. Grows-refl t')
  top_of-Makes client (some top, none) t =
      new_service-Makes client t _ (λ s t' e i. new_directory-Makes client s top.id t' i)

  abbrev pub Grown : {A : Type 0} → Tree R → Outcome A × Tree R → Type 0
  Grown t (x, t') = Grows t t'

  top_of_client-Grown : (c : Outcome (Client R)) (t : Tree R) → Grown t (top_of_client c t)
  top_of_client-Grown (ok c) t =
      let (answer, r) = c.file_system.root t.remote c.name in
      let t' : Tree R = record t { remote = r } in
      Grows-trans t t' _ (with_remote-Grows c t r) (top_of-Makes c answer t')
  top_of_client-Grown (err e) t = Grows-refl t
  top_of_client-Grown (panics p) t = Grows-refl t

  pub lookup-Grown : (root : Root R) (name : String) (t : Tree R) → Grown t (lookup root name t)
  unfolding lookup
  lookup-Grown root name t = elim (Bool-cases root.closed) [
    | inl c ↦ simp c (Grows-refl t)
    | inr c ↦ simp c (top_of_client-Grown (get_client_by_name root.clients name) t)
  ]
