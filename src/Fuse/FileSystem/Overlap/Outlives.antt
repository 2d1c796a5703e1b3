-- ===== src/Fuse/FileSystem/Overlap/Outlives.antt =====
-- The root node of filesystem/server/provider/fuse/filesystem/root/node/main.go is in no registry: what a
-- `Lookup` in it makes behind the `Close` of the file system.
use Prim.Native.String.{String}
use mathlib.Core.Path.{subst}
use fuse_video_streamer.Base.{
  ℕ, ◌≡◌, refl, Bool, false, none, some, get_elem?, get_elem?-last, length,
}
use fuse_video_streamer.Go.{Outcome, ok, returns}
use fuse_video_streamer.Client.{Client, Node}
use fuse_video_streamer.Client.Repository.{get_client_by_name}
use fuse_video_streamer.Stream.External.{Http, Ring}
use fuse_video_streamer.Fuse.Registry.{NodeRef, directory, with_instance, get_instance}
use fuse_video_streamer.Fuse.Directory.{Service, Directory, Tree}
use fuse_video_streamer.Fuse.Directory.Services.{new_service, bind_tree, new_directory}
use fuse_video_streamer.Fuse.Root.{Root, top_of, lookup}
use fuse_video_streamer.Fuse.FileSystem.{FileSystem, Session, Runtime, close}
use fuse_video_streamer.Fuse.FileSystem.Closing.{IsFair, IsDown, Down}
use fuse_video_streamer.Fuse.FileSystem.Reach.{with_tree, Reach}
use fuse_video_streamer.Fuse.FileSystem.Reached.{reached-Down}

-- The call succeeds with a new directory, which is open.
abbrev pub MakesOpen : {R : Type 0} → Tree R → Outcome NodeRef × Tree R → Type 0
MakesOpen t (x, u) =
    (x ≡ ok (directory (length t.directories)))
    × ((d : Directory) × (get_elem? u.directories (length t.directories) ≡ some d)
        × (d.closed ≡ false))

-- The root is there, a Lookup in it makes an open directory, and a Close leaves that as it is.
abbrev pub StillServes :
    {R W B : Type 0}
    → Http W
    → Ring B
    → Runtime
    → FileSystem
    → Session R W B
    → ℕ
    → Root R
    → String
    → Type 0
StillServes http ring rt fs t i root name =
    let r = lookup root name t.tree in
    (get_elem? t.roots i ≡ some root)
    × MakesOpen t.tree r
    × (close http ring rt fs (with_tree t r.1) ≡ returns (fs, with_tree t r.1))

module _ {R : Type 0} (client : Client R) (top : Node)
    (gives : (r : R) → (client.file_system.root r client.name).0 ≡ (some top, none)) where
  abbrev service : Service
  service = record { registry = top.name; closed = false }

  -- The tree behind the making of a service.
  abbrev served : Tree R → Tree R
  served t = record t {
    remote = (client.file_system.root t.remote client.name).1;
    instances = with_instance t.instances top.name;
  }

  served_next :
      {B : Type 0} (t : Tree R) (f : Service → Tree R → Outcome B × Tree R)
      → bind_tree client (new_service client t) f ≡ f service (served t)
  unfolding new_service get_instance
  served_next t f = rw (gives t.remote) refl

  new_directory-MakesOpen :
      (s : Service) (identifier : ℕ) (t : Tree R)
      → s.closed ≡ false
      → MakesOpen t (new_directory client s identifier t)
  unfolding new_directory
  new_directory-MakesOpen s identifier t running = simp running (
      rw (served_next t, served_next (served t), served_next (served (served t)))
        (refl, (_, get_elem?-last t.directories _, refl)))

  top_of-MakesOpen : (t : Tree R) → MakesOpen t (top_of client (some top, none) t)
  top_of-MakesOpen t = rw (served_next t) (new_directory-MakesOpen service top.id (served t) refl)

  lookup-MakesOpen :
      (root : Root R) (name : String) (t : Tree R)
      → root.closed ≡ false
      → get_client_by_name root.clients name ≡ ok client
      → MakesOpen t (lookup root name t)
  unfolding lookup
  lookup-MakesOpen root name t running found =
      simp (running, found)
        (rw (gives t.remote) (
          top_of-MakesOpen
            (record t { remote = (client.file_system.root t.remote client.name).1 })))

  -- What is left of the roots when the file system is down.
  behind_close :
      {W B : Type 0} (http : Http W) (ring : Ring B) (rt : Runtime) (s t : Session R W B)
      (fs : FileSystem) (i : ℕ) (root : Root R) (name : String)
      → IsDown http ring s fs t
      → get_elem? s.roots i ≡ some root
      → root.closed ≡ false
      → get_client_by_name root.clients name ≡ ok client
      → StillServes http ring rt fs t i root name
  unfolding close
  behind_close http ring rt s t fs i root name d at running found =
      (cc (d.same_roots, at), lookup-MakesOpen root name t.tree running found, simp d.closed refl)

  -- When a Close of a file system that is open and has its root node service, in a session that
  -- requests reach and with a fair runtime, returns, then an open root of the session is among its
  -- roots as it was, a Lookup in it of the name of a client whose file system gives its root
  -- succeeds with a new directory, which is open, and another Close of the file system changes
  -- nothing.
  pub root_outlives_close :
      {W B : Type 0} (http : Http W) (ring : Ring B) (rt : Runtime) (c : Bool) (fs fs' : FileSystem)
      (s t : Session R W B) (i : ℕ) (root : Root R) (name : String)
      → Reach http ring s
      → IsFair rt
      → fs.closed ≡ false
      → fs.service ≡ some c
      → close http ring rt fs s ≡ returns (fs', t)
      → get_elem? s.roots i ≡ some root
      → root.closed ≡ false
      → get_client_by_name root.clients name ≡ ok client
      → StillServes http ring rt fs' t i root name
  root_outlives_close http ring rt c fs fs' s t i root name reached fair opened served e at running
        found =
      behind_close http ring rt s t fs' i root name
        (subst (Down http ring s) e (reached-Down http ring rt c fs s reached fair opened served))
        at running found
