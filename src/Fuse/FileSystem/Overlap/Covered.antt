-- ===== src/Fuse/FileSystem/Overlap/Covered.antt =====
-- What becomes of a node while `Close` of filesystem/server/provider/fuse/filesystem/main.go and requests
-- overlap.
use Prim.Native.String.{String}
use mathlib.Core.Path.{subst}
use fuse_video_streamer.Base.{◌≡◌, sym, ◌⊎◌, inl, inr, Bool, true, false, none, List, [], ◌∷◌, ◌++◌}
use fuse_video_streamer.Go.{returns}
use fuse_video_streamer.Stream.External.{Http, Ring}
use fuse_video_streamer.Fuse.Registry.{NodeRef, nodes_of, without_nodes}
use fuse_video_streamer.Fuse.Directory.Registered.{In, Registered}
use fuse_video_streamer.Fuse.FileSystem.{FileSystem, Session}
use fuse_video_streamer.Fuse.FileSystem.Follows.{Follows}
use fuse_video_streamer.Fuse.FileSystem.Nodes.{Closes, Only}
use fuse_video_streamer.Fuse.FileSystem.Advances.{Advances}
use fuse_video_streamer.Fuse.FileSystem.Reached.{step-Advances}
use fuse_video_streamer.Fuse.FileSystem.Overlap.Calm.{Calm, closed, actions-Calm}
use fuse_video_streamer.Fuse.FileSystem.Overlap.Due.{
  Due, DueElsewhere, Registered-Due, Due-Extends, DueElsewhere-Extends, Due-split, Due-take,
  DueElsewhere-without_nodes,
}
use fuse_video_streamer.Fuse.FileSystem.Overlap.Shut.{
  with_instances-IsShut, with_instances-IsThere, IsThere, IsShut, Advances-IsThere, Advances-IsShut,
  Follows-IsThere, Follows-IsShut, ShutAt-IsShut,
}
use fuse_video_streamer.Fuse.FileSystem.Overlap.{
  ClosePc, swapping, dropping, ranging, emptying, joining, ended, State, with_instances, Action,
  requests, swaps, finds_closed, drops, enters, enters_late, closes_early, empties, closes, joins,
  ends, Actions, stays, acts,
}

In-take :
    (n m : NodeRef) (before after : List NodeRef)
    → In n (before ++ m ∷ after)
    → (m ≡ n) ⊎ In n (before ++ after)
In-take n m [] after p = p
In-take n m (x ∷ before) after (inl e) = inr (inl e)
In-take n m (x ∷ before) after (inr p) = elim (In-take n m before after p) [
  | inl e ↦ inl e
  | inr q ↦ inr (inr q)
]

module _ {R W B : Type 0} where
  -- The node is closed, or one of the goroutines or of the registries to come will close it.
  abbrev pub Covered : NodeRef → Bool → Session R W B → ClosePc → Type 0
  Covered n c s swapping = (c ≡ false) × Registered n s.tree.instances
  Covered n c s dropping = Registered n s.tree.instances
  Covered n c s (ranging names) = IsShut n s ⊎ Due n s.tree.instances names
  Covered n c s (emptying name nodes names) =
      IsShut n s ⊎ (In n nodes ⊎ DueElsewhere n s.tree.instances name names)
  Covered n c s (joining nodes names) = IsShut n s ⊎ (In n nodes ⊎ Due n s.tree.instances names)
  Covered n c s ended = IsShut n s

  pub record Inv (n : NodeRef) (s : State R W B) : Type 0 where
    pub there : IsThere n s.session
    pub covered : Covered n s.file_system.closed s.session s.closer

  -- A request takes nothing back.
  advanced-Covered :
      (n : NodeRef) (c : Bool) (s t : Session R W B) (pc : ClosePc)
      → Advances s t
      → Covered n c s pc
      → Covered n c t pc
  advanced-Covered n c s t swapping a (running, p) = (running, a.registries.0 n p)
  advanced-Covered n c s t dropping a p = a.registries.0 n p
  advanced-Covered n c s t (ranging names) a (inl p) = inl (Advances-IsShut n s t a p)
  advanced-Covered n c s t (ranging names) a (inr p) =
      inr (Due-Extends n s.tree.instances t.tree.instances names a.registries p)
  advanced-Covered n c s t (emptying name nodes names) a (inl p) = inl (Advances-IsShut n s t a p)
  advanced-Covered n c s t (emptying name nodes names) a (inr (inl p)) = inr (inl p)
  advanced-Covered n c s t (emptying name nodes names) a (inr (inr p)) =
      inr (inr (DueElsewhere-Extends n s.tree.instances t.tree.instances name names a.registries p))
  advanced-Covered n c s t (joining nodes names) a (inl p) = inl (Advances-IsShut n s t a p)
  advanced-Covered n c s t (joining nodes names) a (inr (inl p)) = inr (inl p)
  advanced-Covered n c s t (joining nodes names) a (inr (inr p)) =
      inr (inr (Due-Extends n s.tree.instances t.tree.instances names a.registries p))
  advanced-Covered n c s t ended a p = Advances-IsShut n s t a p

module _ {R W B : Type 0} (http : Http W) (ring : Ring B) where
  -- The goroutine of a node ran: where the other one was closed or waited for it, it still is, or
  -- was that node.
  closed-Covered :
      (n m : NodeRef) (s t : Session R W B) (before after : List NodeRef) (Q : Type 0)
      → Closes (Only m) s (returns t)
      → IsThere n s
      → IsShut n s ⊎ (In n (before ++ m ∷ after) ⊎ Q)
      → IsShut n t ⊎ (In n (before ++ after) ⊎ Q)
  closed-Covered n m s t before after Q (f, shut) there (inl p) =
      inl (Follows-IsShut n s t f there p)
  closed-Covered n m s t before after Q (f, shut) there (inr (inl p)) =
      elim (In-take n m before after p) [
        | inl e ↦ inl (ShutAt-IsShut n t (Follows-IsThere n s t f there) (shut n e))
        | inr q ↦ inr (inl q)
      ]
  closed-Covered n m s t before after Q (f, shut) there (inr (inr q)) = inr (inr q)

  pub at_pc :
      (n : NodeRef) (s : State R W B) (pc : ClosePc)
      → Inv n s
      → s.closer ≡ pc
      → Covered n s.file_system.closed s.session pc
  at_pc n s pc v e = subst (Covered n s.file_system.closed s.session) e v.covered

  -- The loop comes to the registry with a name.
  entered :
      (n : NodeRef) (s : Session R W B) (name : String) (names : List String)
      → IsShut n s ⊎ (In n (nodes_of s.tree.instances name) ⊎ Due n s.tree.instances names)
      → IsShut n s
        ⊎ (In n (nodes_of s.tree.instances name) ⊎ DueElsewhere n s.tree.instances name names)
  entered n s name names (inl p) = inl p
  entered n s name names (inr (inl p)) = inr (inl p)
  entered n s name names (inr (inr p)) = inr (Due-split n s.tree.instances name names p)

  emptied :
      (n : NodeRef) (s : Session R W B) (name : String) (nodes : List NodeRef) (names : List String)
      → IsShut n s ⊎ (In n nodes ⊎ DueElsewhere n s.tree.instances name names)
      → let a = without_nodes s.tree.instances name in
        IsShut n (with_instances s a) ⊎ (In n nodes ⊎ Due n a names)
  emptied n s name nodes names (inl p) =
      inl (with_instances-IsShut n s (without_nodes s.tree.instances name) p)
  emptied n s name nodes names (inr (inl p)) = inr (inl p)
  emptied n s name nodes names (inr (inr p)) =
      inr (inr (DueElsewhere-without_nodes n s.tree.instances name names p))

  taken :
      (n : NodeRef) (s : Session R W B) (before after : List String) (name : String)
      → IsShut n s ⊎ Due n s.tree.instances (before ++ name ∷ after)
      → IsShut n s
        ⊎ (In n (nodes_of s.tree.instances name) ⊎ Due n s.tree.instances (before ++ after))
  taken n s before after name (inl p) = inl p
  taken n s before after name (inr p) = inr (Due-take n s.tree.instances before after name p)

  kept_late :
      (n : NodeRef) (s : Session R W B) (name : String) (names : List String)
      → IsShut n s ⊎ Due n s.tree.instances names
      → IsShut n s ⊎ (In n (nodes_of s.tree.instances name) ⊎ Due n s.tree.instances names)
  kept_late n s name names (inl p) = inl p
  kept_late n s name names (inr p) = inr (inr p)

  joined :
      (n : NodeRef) (s : Session R W B) (names : List String)
      → IsShut n s ⊎ (In n [] ⊎ Due n s.tree.instances names)
      → IsShut n s ⊎ Due n s.tree.instances names
  joined n s names (inl p) = inl p
  joined n s names (inr (inl p)) = absurd p
  joined n s names (inr (inr p)) = inr p

  done : (n : NodeRef) (s : Session R W B) → IsShut n s ⊎ Due n s.tree.instances [] → IsShut n s
  done n s (inl p) = p
  done n s (inr p) = absurd p

  -- Where the session stays, all but what is said of the closer does.
  same_session-Inv :
      (n : NodeRef) (s : State R W B) (fs : FileSystem) (pc : ClosePc)
      → Inv n s
      → Covered n fs.closed s.session pc
      → Inv n (record { file_system = fs; session = s.session; closer = pc })
  same_session-Inv n s fs pc v covered = record { there = v.there; covered = covered }

  Follows-Inv :
      (n : NodeRef) (s : State R W B) (t : Session R W B) (pc : ClosePc)
      → Inv n s
      → Follows s.session t
      → Covered n s.file_system.closed t pc
      → Inv n (record { file_system = s.file_system; session = t; closer = pc })
  Follows-Inv n s t pc v f covered = record {
    there = Follows-IsThere n s.session t f v.there;
    covered = covered;
  }

  action-Inv : (n : NodeRef) {s t : State R W B} → Calm s → Inv n s → Action http ring s t → Inv n t
  action-Inv n {s} c v (requests t step) =
      let on = step-Advances http ring c.served c.sound step in
      record {
        there = Advances-IsThere n s.session t on v.there;
        covered = advanced-Covered n s.file_system.closed s.session t s.closer on v.covered;
      }
  action-Inv n {s} c v (swaps e running) =
      same_session-Inv n s (record s.file_system { closed = true }) dropping v
        (at_pc n s swapping v e).1
  action-Inv n {s} c v (finds_closed e off) =
      let (running, p) : Covered n s.file_system.closed s.session swapping =
        at_pc n s swapping v e in
      absurd (cc)
  action-Inv n {s} c v (drops b e served) =
      same_session-Inv n s (record s.file_system { service = none }) _ v
        (inr (Registered-Due n s.session.tree.instances (at_pc n s dropping v e)))
  action-Inv n {s} c v (enters before after name e) = same_session-Inv n s s.file_system _ v (
      entered n s.session name (before ++ after)
        (taken n s.session before after name (at_pc n s (ranging (before ++ name ∷ after)) v e)))
  action-Inv n {s} c v (enters_late name names e is) = same_session-Inv n s s.file_system _ v (
      entered n s.session name names
        (kept_late n s.session name names (at_pc n s (ranging names) v e)))
  action-Inv n {s} c v (closes_early rt name before after m names t e q) =
      let (f, shut) : Closes (Only m) s.session (returns t) =
        closed http ring rt m s.session t c.sound q in
      Follows-Inv n s t _ v f (
        subst (λ a. IsShut n t ⊎ (In n (before ++ after) ⊎ DueElsewhere n a name names))
          (sym f.registries)
          (closed-Covered n m s.session t before after _ (f, shut) v.there
            (at_pc n s (emptying name (before ++ m ∷ after) names) v e)))
  action-Inv n {s} c v (empties name nodes names e) = record {
    there =
        with_instances-IsThere n s.session (without_nodes s.session.tree.instances name) v.there;
    covered = emptied n s.session name nodes names (at_pc n s (emptying name nodes names) v e);
  }
  action-Inv n {s} c v (closes rt before after m names t e q) =
      let (f, shut) : Closes (Only m) s.session (returns t) =
        closed http ring rt m s.session t c.sound q in
      Follows-Inv n s t _ v f (
        subst (λ a. IsShut n t ⊎ (In n (before ++ after) ⊎ Due n a names)) (sym f.registries)
          (closed-Covered n m s.session t before after _ (f, shut) v.there
            (at_pc n s (joining (before ++ m ∷ after) names) v e)))
  action-Inv n {s} c v (joins names e) =
      same_session-Inv n s s.file_system _ v
        (joined n s.session names (at_pc n s (joining [] names) v e))
  action-Inv n {s} c v (ends e) =
      same_session-Inv n s s.file_system ended v (done n s.session (at_pc n s (ranging []) v e))

  pub actions-Inv :
      (n : NodeRef) {s t : State R W B} → Calm s → Inv n s → Actions http ring s t → Inv n t
  actions-Inv n c v stays = v
  actions-Inv n c v (acts before act) =
      action-Inv n (actions-Calm http ring c before) (actions-Inv n c v before) act
