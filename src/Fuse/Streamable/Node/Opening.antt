-- ===== src/Fuse/Streamable/Node/Opening.antt =====
-- Opening a node of filesystem/server/provider/fuse/filesystem/streamable/node/main.go, also behind its
-- `Close`.
use mathlib.Core.Path.{subst}
use fuse_video_streamer.Base.{
  ℕ, ◌≡◌, refl, sym, ap, ◌∙◌, inl, inr, true, false, Option, none, some, List, [], ◌∷◌, ◌++◌, arith,
  length, get_elem?, Bool-cases, Option-cases, get_elem?-append,
}
use fuse_video_streamer.Go.{Outcome, ok, err, panics, Ended, returns, waits, crashes}
use fuse_video_streamer.Client.{Client}
use fuse_video_streamer.Stream.External.{Http, Ring}
use fuse_video_streamer.Stream.Transfer.{Move}
use fuse_video_streamer.Stream.Core.{Stream}
use fuse_video_streamer.Stream.Factory.{Factory}
use fuse_video_streamer.Fuse.Handles.{Held-append}
use fuse_video_streamer.Fuse.Streamable.Handle.{Handle, World, new_handle}
use fuse_video_streamer.Fuse.Streamable.World.{
  Extends, Extends-append, AllSettled-Extends, AllSettled-snoc, StreamBy,
}
use fuse_video_streamer.Fuse.Streamable.Node.{
  Service, Node, Moment, keep_handle, open_stream, open_handle, open_node, close_handles,
  closed_node, close_service, close_by, close,
}
use fuse_video_streamer.Fuse.Streamable.Node.Closing.{Supplied, WellBy, IsWell}

module _ {W B R : Type 0} (http : Http W) (ring : Ring B) (client : Client R) where
  -- The node is well-formed among the streams, of which none was opened again.
  abbrev pub Keeps : List (Stream W B) → Outcome (Option ℕ) × Node × World W B → Type 0
  Keeps ss (x, n, w) = IsWell w.streams n × Extends ss w.streams

  get-snoc :
      (ss : List (Stream W B)) (s : Stream W B)
      → StreamBy false (get_elem? (ss ++ s ∷ []) (length ss))
  get-snoc ss s = subst (StreamBy false) (sym (get_elem?-append ss s [])) tt

  keep_handle-Keeps :
      (w : World W B) (n : Node) (made : Outcome (Stream W B) × Factory)
      → n.closed ≡ false
      → WellBy false w.streams n
      → Keeps w.streams (keep_handle http ring client w n made)
  unfolding new_handle
  keep_handle-Keeps w n (err e, f) c (s, _, h, all) = (simp c (s, tt, h, all), λ i must b. b)
  keep_handle-Keeps w n (panics p, f) c (s, _, h, all) = (simp c (s, tt, h, all), λ i must b. b)
  keep_handle-Keeps w n (ok t, f) c (s, _, h, all) =
      let more = Extends-append w.streams t in
      let (g, w') =
        new_handle (record w { streams = w.streams ++ t ∷ [] }) n.size (some (length w.streams)) in
      (
        simp c (
          s,
          tt,
          Held-append 0 (length n.objects) n.handles n.objects g (omega arith) h,
          AllSettled-snoc (w.streams ++ t ∷ []) n.objects g
              (AllSettled-Extends w.streams (w.streams ++ t ∷ []) n.objects more all)
              (get-snoc w.streams t),
        ),
        more,
      )

  open_stream-Keeps :
      (m : Moment W) (r : R) (w : World W B) (n : Node) (f : Option Factory)
      → n.closed ≡ false
      → n.service.stream_factory ≡ f
      → WellBy false w.streams n
      → Keeps w.streams (open_stream http ring client m r w n f).0
  unfolding open_stream
  open_stream-Keeps m r w n none c e (s, f, h, all) = absurd (subst Supplied e f)
  open_stream-Keeps m r w n (some f) c e well = keep_handle-Keeps w n _ c well

  open_handle-Keeps :
      (m : Moment W) (r : R) (w : World W B) (n : Node)
      → n.closed ≡ false
      → WellBy false w.streams n
      → Keeps w.streams (open_handle http ring client m r w n).0
  unfolding open_handle
  open_handle-Keeps m r w n c well =
      let serving : n.service.closed ≡ false = well.0 in
      simp serving (open_stream-Keeps m r w n n.service.stream_factory c refl well)

  -- `Open` keeps a streamable node well-formed, and opens no stream again.
  pub open_node-Keeps :
      (m : Moment W) (r : R) (w : World W B) (n : Node)
      → IsWell w.streams n
      → Keeps w.streams (open_node http ring client m r w n).0
  unfolding open_node
  open_node-Keeps m r w n well = elim (Bool-cases n.closed) [
    | inl c ↦ simp c (subst (λ b. WellBy b w.streams n) c well, λ i must b. b)
    | inr c ↦ simp c (open_handle-Keeps m r w n c (subst (λ b. WellBy b w.streams n) c well))
  ]

  close_service-closed : (s s' : Service) → close_service s ≡ returns s' → s'.closed ≡ true
  unfolding close_service
  close_service-closed s s' e = elim (Bool-cases s.closed) [
    | inl c ↦ ground arith
    | inr c ↦ elim (Option-cases s.stream_factory) [
      | inl f ↦ ground arith
      | inr (f, q) ↦ ground arith
    ]
  ]

  closed_node-service :
      (n n' : Node) (w : World W B) (r : Ended (List Handle × World W B))
      → closed_node http ring n r ≡ returns (n', w)
      → n'.service ≡ n.service
  closed_node-service n n' w (returns (hs, w')) e = ground arith
  closed_node-service n n' w waits e = ground arith
  closed_node-service n n' w (crashes p) e = ground arith

  close_by-service :
      (ms : ℕ → List Move) (w w' : World W B) (n n' : Node) (s : Ended Service)
      → close_service n.service ≡ s
      → close_by http ring ms w n s ≡ returns (n', w')
      → n'.service.closed ≡ true
  close_by-service ms w w' n n' waits q e = ground arith
  close_by-service ms w w' n n' (crashes p) q e = ground arith
  close_by-service ms w w' n n' (returns s) q e =
      ap (λ (x : Service). x.closed)
        (closed_node-service (record n { service = s; closed = true }) n' w'
          (close_handles http ring ms n.handles n.objects w) e)
      ∙ close_service-closed n.service s q

  -- When an open streamable node was closed by a Close that returned, an Open that had passed its
  -- test before succeeds with a nil handle, which it appends to the handles.
  pub open_behind_close_gives_nil :
      (m : Moment W) (ms : ℕ → List Move) (r : R) (w w' later : World W B) (n n' : Node)
      → n.closed ≡ false
      → close http ring ms w n ≡ returns (n', w')
      → open_handle http ring client m r later n'
        ≡ ((ok none, record n' { handles = n'.handles ++ none ∷ [] }, later), r)
  unfolding close open_handle
  open_behind_close_gives_nil m ms r w w' later n n' c e =
      let shut : n'.service.closed ≡ true =
        close_by-service ms w w' n n' (close_service n.service) refl (simp c at e) in
      simp shut refl

  pub open_node-keeps_closed :
      (m : Moment W) (r : R) (w : World W B) (n : Node)
      → n.closed ≡ true
      → (open_node http ring client m r w n).0.1.closed ≡ true
  unfolding open_node
  open_node-keeps_closed m r w n c = simp c
