-- ===== src/Fuse/Streamable/Node/Closing.antt =====
-- Closing a node of filesystem/server/provider/fuse/filesystem/streamable/node/main.go.
use mathlib.Core.Path.{subst}
use fuse_video_streamer.Base.{
  ℕ, ◌+◌, ◌≡◌, refl, sym, ap, ◌∙◌, inl, inr, true, false, Bool, Option, none, some, List, [], ◌∷◌,
  ◌++◌, arith, length, get_elem?, set, append-nil, Bool-cases, get_elem?-append, set-append,
  length-snoc,
}
use fuse_video_streamer.Go.{Ended, returns, waits, crashes}
use fuse_video_streamer.Stream.External.{Http, Ring}
use fuse_video_streamer.Stream.Transfer.{Move}
use fuse_video_streamer.Stream.Core.{Stream}
use fuse_video_streamer.Stream.Factory.{Factory}
use fuse_video_streamer.Fuse.Handles.{Held}
use fuse_video_streamer.Fuse.Streamable.Handle.{Handle, World}
use fuse_video_streamer.Fuse.Streamable.World.{
  Extends, AllSettled, AllOver, AllSettled-Extends, AllOver-Extends, AllOver-snoc, Over,
}
use fuse_video_streamer.Fuse.Streamable.Stopping.{Ends, close-Ends}
use fuse_video_streamer.Fuse.Streamable.Node.{
  Node, new_service, make_service, new_node, after_handle, close_handles, closed_node,
  close_service, close_by, close,
}

-- The factory is there as long as the service is open.
abbrev pub Supplied : Option Factory → Type 0
Supplied none = ⊥
Supplied (some f) = Unit {0}

module _ {W B : Type 0} where
  -- As long as the node is open, so is its service, which has a factory, and the field `handles`
  -- holds all handles that were made; a closed handle's stream is closed. Then all are closed.
  abbrev pub WellBy : Bool → List (Stream W B) → Node → Type 0
  WellBy false ss n =
      (n.service.closed ≡ false)
      × Supplied n.service.stream_factory
      × Held 0 n.handles n.objects
      × AllSettled ss n.objects
  WellBy true ss n = AllOver ss n.objects

  abbrev pub IsWell : List (Stream W B) → Node → Type 0
  IsWell ss n = WellBy n.closed ss n

  WellBy-Extends :
      (closed : Bool) (ss ts : List (Stream W B)) (n : Node)
      → Extends ss ts
      → WellBy closed ss n
      → WellBy closed ts n
  WellBy-Extends true ss ts n e w = AllOver-Extends ss ts n.objects e w
  WellBy-Extends false ss ts n e (c, f, h, s) = (c, f, h, AllSettled-Extends ss ts n.objects e s)

  pub IsWell-Extends :
      (ss ts : List (Stream W B)) (n : Node) → Extends ss ts → IsWell ss n → IsWell ts n
  IsWell-Extends ss ts n = WellBy-Extends n.closed ss ts n

  pub new_node-IsWell :
      (ss : List (Stream W B)) (identifier size : ℕ) → IsWell ss (new_node identifier size)
  unfolding new_node make_service new_service
  new_node-IsWell ss identifier size = (refl, tt, tt, tt)

module _ {W B : Type 0} (http : Http W) (ring : Ring B) where
  -- The handles are over, and no stream was opened again.
  abbrev pub EndsAll : List (Stream W B) → Ended (List Handle × World W B) → Type 0
  EndsAll ss waits = Unit {0}
  EndsAll ss (crashes p) = ⊥
  EndsAll ss (returns (hs, w)) = AllOver w.streams hs × Extends ss w.streams

  EndsAll-Extends :
      (ss ts : List (Stream W B)) (r : Ended (List Handle × World W B))
      → Extends ss ts
      → EndsAll ts r
      → EndsAll ss r
  EndsAll-Extends ss ts waits e a = a
  EndsAll-Extends ss ts (crashes p) e a = a
  EndsAll-Extends ss ts (returns (hs, w)) e (a, m) = (a, λ i must b. m i must (e i must b))

  after_handle-EndsAll :
      (hs : List Handle) (i : ℕ) (ss : List (Stream W B)) (r : Option (Handle × World W B))
      (rest : List Handle → World W B → Ended (List Handle × World W B))
      → Ends http ring ss r
      → ((h : Handle) (w : World W B)
          → Over w.streams h
          → Extends ss w.streams
          → EndsAll w.streams (rest (set hs i h) w))
      → EndsAll ss (after_handle http ring hs i r rest)
  after_handle-EndsAll hs i ss none rest n go = tt
  after_handle-EndsAll hs i ss (some (h, w)) rest (over, more) go =
      EndsAll-Extends ss w.streams (rest (set hs i h) w) more (go h w over more)

  close_handles-EndsAll :
      (ms : ℕ → List Move) (is : List (Option ℕ)) (before os : List Handle) (i : ℕ) (w : World W B)
      → i ≡ length before
      → Held i is os
      → AllOver w.streams before
      → AllSettled w.streams os
      → EndsAll w.streams (close_handles http ring ms is (before ++ os) w)
  unfolding close_handles
  close_handles-EndsAll ms [] before [] i w e p a s =
      (subst (AllOver w.streams) (sym (append-nil before)) a, λ j must b. b)
  close_handles-EndsAll ms [] before (o ∷ os) i w e p a s = absurd p
  close_handles-EndsAll ms (none ∷ is) before os i w e p a s = absurd p
  close_handles-EndsAll ms (some j ∷ is) before [] i w e p a s = absurd p
  close_handles-EndsAll ms (some j ∷ is) before (o ∷ os) i w e p a s =
      let at : j ≡ length before = p.0 ∙ e in
      let found : get_elem? (before ++ o ∷ os) j ≡ some o =
        ap (get_elem? (before ++ o ∷ os)) at ∙ get_elem?-append before o os in
      rw (close_handles, found)
        (after_handle-EndsAll (before ++ o ∷ os) j w.streams _ (close_handles http ring ms is)
          (close-Ends http ring (ms j) w o s.0)
          (λ h w' over more.
            let stored : set (before ++ o ∷ os) j h ≡ (before ++ h ∷ []) ++ os =
              ap (λ k. set (before ++ o ∷ os) k h) at ∙ set-append before o h os in
            subst (λ l. EndsAll w'.streams (close_handles http ring ms is l w')) (sym stored)
              (close_handles-EndsAll ms is (before ++ h ∷ []) os (i + 1) w'
                (omega (arith, e, length-snoc before h)) p.1
                (AllOver-snoc w'.streams before h
                  (AllOver-Extends w.streams w'.streams before more a) over)
                (AllSettled-Extends w.streams w'.streams os more s.1))))

  -- The node is closed and so are all handles that it made, with their streams; no stream was opened
  -- again.
  abbrev pub Stopped : List (Stream W B) → Ended (Node × World W B) → Type 0
  Stopped ss waits = Unit {0}
  Stopped ss (crashes p) = ⊥
  Stopped ss (returns (n, w)) =
      (n.closed ≡ true) × AllOver w.streams n.objects × Extends ss w.streams

  closed_node-Stopped :
      (ss : List (Stream W B)) (n : Node) (r : Ended (List Handle × World W B))
      → n.closed ≡ true
      → EndsAll ss r
      → Stopped ss (closed_node http ring n r)
  closed_node-Stopped ss n waits c a = tt
  closed_node-Stopped ss n (crashes p) c a = a
  closed_node-Stopped ss n (returns (hs, w)) c a = (c, a.0, a.1)

  close_by-Stopped :
      (ms : ℕ → List Move) (w : World W B) (n : Node) (f : Option Factory)
      → n.service.stream_factory ≡ f
      → WellBy false w.streams n
      → Stopped w.streams (close_by http ring ms w n (close_service n.service))
  unfolding close_service
  close_by-Stopped ms w n none e (c, f, h, s) = absurd (subst Supplied e f)
  close_by-Stopped ms w n (some f) e (c, _, h, s) =
      simp (c, e)
        (closed_node-Stopped w.streams
          (record n { service = record { stream_factory = none; closed = true }; closed = true })
          (close_handles http ring ms n.handles n.objects w) refl
          (close_handles-EndsAll ms n.handles [] n.objects 0 w refl h tt s))

  -- A Close of a well-formed streamable node never panics, under any schedules of the streams;
  -- when it returns, the node is closed, every handle that it ever made is closed and so is the
  -- handle's stream, and no stream that was closed is open again.
  pub close-Stopped :
      (ms : ℕ → List Move) (w : World W B) (n : Node)
      → IsWell w.streams n
      → Stopped w.streams (close http ring ms w n)
  unfolding close
  close-Stopped ms w n well = elim (Bool-cases n.closed) [
    | inl c ↦ simp c (refl, subst (λ b. WellBy b w.streams n) c well, λ i must b. b)
    | inr c ↦ simp c (
        close_by-Stopped ms w n n.service.stream_factory refl
          (subst (λ b. WellBy b w.streams n) c well))
  ]
