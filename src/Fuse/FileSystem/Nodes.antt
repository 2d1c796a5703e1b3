-- ===== src/Fuse/FileSystem/Nodes.antt =====
-- The `Close` of one node in the `CloseNodes` of filesystem/server/provider/fuse/registry/main.go.
use mathlib.Core.Path.{subst}
use fuse_video_streamer.Base.{
  ℕ, ◌≡◌, sym, ◌⊎◌, inl, inr, true, arith, get_elem?, set-hit, Option-cases, Bool-cases,
}
use fuse_video_streamer.Go.{Outcome, ok, err, panics, Ended, returns, waits, crashes, when_returns}
use fuse_video_streamer.Stream.External.{Http, Ring}
use fuse_video_streamer.Fuse.Registry.{NodeRef, directory, streamable, file, Instances}
use fuse_video_streamer.Fuse.Streamable.Handle.{World}
use fuse_video_streamer.Fuse.Streamable.Node as Streamable
use fuse_video_streamer.Fuse.Streamable.Node.Closing as Streamables
use fuse_video_streamer.Fuse.File.Node as File
use fuse_video_streamer.Fuse.File.Node.Closing as Files
use fuse_video_streamer.Fuse.Directory.{Directory}
use fuse_video_streamer.Fuse.Directory.Requests
use fuse_video_streamer.Fuse.Directory.Tidy.{close-IsTidy}
use fuse_video_streamer.Fuse.Directory.Served.{Served, AllServed-get, AllServed-set}
use fuse_video_streamer.Fuse.FileSystem.{Session, Runtime, close_node, after_file, after_streamable}
use fuse_video_streamer.Fuse.FileSystem.Follows.{
  IsClosedDirectory, IsClosedFile, IsClosedStreamable, ShutAt, IsSound, Follows, Follows-refl,
  Follows-trans, with_directory, with_file, with_streamable, with_directory-Follows,
  with_file-Follows, with_streamable-Follows,
}

module _ {R W B : Type 0} where
  -- A call that returns leaves a session that follows, in which these nodes are closed.
  abbrev pub Closes : (NodeRef → Type 0) → Session R W B → Ended (Session R W B) → Type 0
  Closes P s waits = Unit {0}
  Closes P s (crashes p) = ⊥
  Closes P s (returns s') = Follows s s' × ((n : NodeRef) → P n → ShutAt n s')

  Closes-join :
      (P Q T : NodeRef → Type 0) (s s' : Session R W B) (r : Ended (Session R W B))
      → Follows s s'
      → ((n : NodeRef) → P n → ShutAt n s')
      → Closes Q s' r
      → ((n : NodeRef) → T n → P n ⊎ Q n)
      → Closes T s r
  Closes-join P Q T s s' waits f c d split = tt
  Closes-join P Q T s s' (crashes p) f c d split = d
  Closes-join P Q T s s' (returns s'') f c (g, d) split = (
    Follows-trans s s' s'' f g,
    λ n t. elim (split n t) [ inl p ↦ g.stays n (c n p) | inr q ↦ d n q ],
  )

  -- Two calls, one after the other.
  pub Closes-then :
      (P Q T : NodeRef → Type 0) (s : Session R W B) (r : Ended (Session R W B))
      (next : Session R W B → Ended (Session R W B))
      → Closes P s r
      → ((s' : Session R W B) → IsSound s' → Closes Q s' (next s'))
      → ((n : NodeRef) → T n → P n ⊎ Q n)
      → Closes T s (when_returns r next)
  Closes-then P Q T s waits next c go split = tt
  Closes-then P Q T s (crashes p) next c go split = c
  Closes-then P Q T s (returns s') next (f, c) go split =
      Closes-join P Q T s s' (next s') f c (go s' f.sound) split

directory_closed : (d : Directory) → (Requests.close d).closed ≡ true
unfolding Requests.close
directory_closed d = ground arith

close_directory-Served : (a : Instances) (d : Directory) → Served a d → Served a (Requests.close d)
unfolding Requests.close
close_directory-Served a d s = elim (Bool-cases d.closed) [ inl c ↦ simp c s | inr c ↦ simp c s ]

-- That node.
abbrev pub Only : NodeRef → NodeRef → Type 0
Only n m = n ≡ m

module _ {R W B : Type 0} (http : Http W) (ring : Ring B) where
  missing :
      (n : NodeRef) (s : Session R W B) → IsSound s → ShutAt n s → Closes (Only n) s (returns s)
  missing n s w c = (Follows-refl s w, λ m e. subst (λ x. ShutAt x s) e c)

  close_directory-Closes :
      (rt : Runtime) (i : ℕ) (s : Session R W B)
      → IsSound s
      → Closes (Only (directory i)) s (close_node http ring rt (directory i) s)
  unfolding close_node
  close_directory-Closes rt i s w = elim (Option-cases (get_elem? s.tree.directories i)) [
    | inl e ↦ rw (close_node, e) (missing (directory i) s w (λ x q. cc (q, e)))
    | inr (d, e) ↦
        let c = directory_closed d in
        rw (close_node, e)
          (
            with_directory-Follows s i (Requests.close d) w c (close-IsTidy d (w.2 i d e)) (λ p.
                AllServed-set s.tree.instances s.tree.directories i (Requests.close d) p (
                  close_directory-Served s.tree.instances d
                    (AllServed-get s.tree.instances s.tree.directories i d p e))),
            λ m q.
                subst (λ x. ShutAt x (with_directory s i (Requests.close d))) q
                  (set-hit IsClosedDirectory s.tree.directories i (Requests.close d) c),
          )
  ]

  after_file-Closes :
      (i : ℕ) (s : Session R W B) (r : Outcome File.Node)
      → IsSound s
      → Files.Shut r
      → Closes (Only (file i)) s (after_file http ring i s r)
  after_file-Closes i s (ok n) w (c, all) = (
    with_file-Follows s i n w c (subst (λ b. Files.WellBy b n) (sym c) all),
    λ m q. subst (λ x. ShutAt x (with_file s i n)) q (set-hit IsClosedFile s.tree.files i n c),
  )
  after_file-Closes i s (err e) w shut = absurd shut
  after_file-Closes i s (panics p) w shut = shut

  close_file-Closes :
      (rt : Runtime) (i : ℕ) (s : Session R W B)
      → IsSound s
      → Closes (Only (file i)) s (close_node http ring rt (file i) s)
  unfolding close_node
  close_file-Closes rt i s w = elim (Option-cases (get_elem? s.tree.files i)) [
    | inl e ↦ rw (close_node, e) (missing (file i) s w (λ x q. cc (q, e)))
    | inr (n, e) ↦
        rw (close_node, e) (after_file-Closes i s (File.close n) w (Files.close-Shut n (w.0 i n e)))
  ]

  after_streamable-Closes :
      (i : ℕ) (s : Session R W B) (r : Ended (Streamable.Node × World W B))
      → IsSound s
      → Streamables.Stopped http ring s.world.streams r
      → Closes (Only (streamable i)) s (after_streamable http ring i s r)
  after_streamable-Closes i s waits w stopped = tt
  after_streamable-Closes i s (crashes p) w stopped = stopped
  after_streamable-Closes i s (returns (n, v)) w (c, all, more) = (
    with_streamable-Follows s i n v w c (subst (λ b. Streamables.WellBy b v.streams n) (sym c) all)
        more,
    λ m q.
        subst (λ x. ShutAt x (with_streamable s i n v)) q
          (set-hit IsClosedStreamable s.tree.streamables i n c),
  )

  close_streamable-Closes :
      (rt : Runtime) (i : ℕ) (s : Session R W B)
      → IsSound s
      → Closes (Only (streamable i)) s (close_node http ring rt (streamable i) s)
  unfolding close_node
  close_streamable-Closes rt i s w = elim (Option-cases (get_elem? s.tree.streamables i)) [
    | inl e ↦ rw (close_node, e) (missing (streamable i) s w (λ x q. cc (q, e)))
    | inr (n, e) ↦
        rw (close_node, e)
          (after_streamable-Closes i s (Streamable.close http ring (rt.moves i) s.world n) w
            (Streamables.close-Stopped http ring (rt.moves i) s.world n (w.1 i n e)))
  ]

  pub close_node-Closes :
      (rt : Runtime) (n : NodeRef) (s : Session R W B)
      → IsSound s
      → Closes (Only n) s (close_node http ring rt n s)
  close_node-Closes rt (directory i) s w = close_directory-Closes rt i s w
  close_node-Closes rt (file i) s w = close_file-Closes rt i s w
  close_node-Closes rt (streamable i) s w = close_streamable-Closes rt i s w
