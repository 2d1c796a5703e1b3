-- ===== src/Fuse/Streamable/Node/Racing.antt =====
-- Two calls of `Open` of filesystem/server/provider/fuse/filesystem/streamable/node/main.go at a time. They
-- hold the lock of the node for reading only, so that both may read `node.handles` before one of
-- them stores what `append` made of it.
use mathlib.Core.Path.{subst}
use fuse_video_streamer.Base.{
  ℕ, ◌+◌, ◌≤◌, ◌≡◌, ◌≢◌, refl, ap, ◌∙◌, inl, inr, Bool, true, false, Option, none, some, List, [],
  ◌∷◌, ◌++◌, arith, length, get_elem?, set, append_assoc, get_elem?-append, length-snoc,
  get_elem?-set-other, Bool-cases, Option-cases, if◌then◌else◌,
}
use fuse_video_streamer.Go.{Outcome, ok, err, panics, Ended, returns, waits, crashes}
use fuse_video_streamer.Client.{Client}
use fuse_video_streamer.Stream.External.{Http, Ring}
use fuse_video_streamer.Stream.Transfer.{Move}
use fuse_video_streamer.Stream.Core.{Stream}
use fuse_video_streamer.Stream.Factory.{Factory}
use fuse_video_streamer.Fuse.Handles.{Held}
use fuse_video_streamer.Fuse.Streamable.Handle.{Handle, World, new_handle}
use fuse_video_streamer.Fuse.Streamable.Node.{
  Node, Service, Moment, keep_handle, open_stream, open_handle, after_handle, close_handles,
  closed_node, close_service, close_by, close,
}
use fuse_video_streamer.Fuse.Streamable.Node.Closing.{IsWell, WellBy}

-- `node.handles = append(node.handles, handle)`, where `node.handles` was read as the first argument.
unfoldable pub store_handle : List (Option ℕ) → Option ℕ → Node → Node
store_handle read h n = record n { handles = read ++ h ∷ [] }

-- None of the handles is this one.
abbrev IsOther : ℕ → List (Option ℕ) → Type 0
IsOther k [] = Unit {0}
IsOther k (none ∷ is) = IsOther k is
IsOther k (some i ∷ is) = (i ≢ k) × IsOther k is

IsOther-snoc :
    (k i : ℕ) (is : List (Option ℕ)) → IsOther k is → i ≢ k → IsOther k (is ++ some i ∷ [])
IsOther-snoc k i [] o ne = (ne, tt)
IsOther-snoc k i (none ∷ is) o ne = IsOther-snoc k i is o ne
IsOther-snoc k i (some j ∷ is) o ne = (o.0, IsOther-snoc k i is o.1 ne)

Held-IsOther :
    (i k : ℕ) (is : List (Option ℕ)) (os : List Handle)
    → Held i is os
    → length os + i ≤ k
    → IsOther k is
Held-IsOther i k [] [] h b = tt
Held-IsOther i k [] (o ∷ os) h b = absurd h
Held-IsOther i k (none ∷ is) os h b = absurd h
Held-IsOther i k (some j ∷ is) [] h b = absurd h
Held-IsOther i k (some j ∷ is) (o ∷ os) h b =
    (λ e. omega (arith, e, h.0, b), Held-IsOther (i + 1) k is os h.1 (omega (arith, b)))

module _ {W B : Type 0} (http : Http W) (ring : Ring B) where
  -- A loop over other handles leaves this one as it was.
  abbrev Leaves : ℕ → List Handle → Ended (List Handle × World W B) → Type 0
  Leaves k os (returns (hs, w)) = get_elem? hs k ≡ get_elem? os k
  Leaves k os _ = Unit {0}

  Leaves-trans :
      (k : ℕ) (os hs : List Handle) (r : Ended (List Handle × World W B))
      → get_elem? hs k ≡ get_elem? os k
      → Leaves k hs r
      → Leaves k os r
  Leaves-trans k os hs waits e l = tt
  Leaves-trans k os hs (crashes p) e l = tt
  Leaves-trans k os hs (returns (xs, w)) e l = l ∙ e

  after_handle-Leaves :
      (k i : ℕ) (os : List Handle) (r : Option (Handle × World W B))
      (rest : List Handle → World W B → Ended (List Handle × World W B))
      → i ≢ k
      → ((hs : List Handle) (w : World W B) → Leaves k hs (rest hs w))
      → Leaves k os (after_handle http ring os i r rest)
  after_handle-Leaves k i os none rest ne go = tt
  after_handle-Leaves k i os (some (h, w)) rest ne go =
      Leaves-trans k os (set os i h) (rest (set os i h) w) (get_elem?-set-other os i k h ne)
        (go (set os i h) w)

  close_handles-Leaves :
      (ms : ℕ → List Move) (k : ℕ) (is : List (Option ℕ)) (os : List Handle) (w : World W B)
      → IsOther k is
      → Leaves k os (close_handles http ring ms is os w)
  unfolding close_handles
  close_handles-Leaves ms k [] os w o = refl
  close_handles-Leaves ms k (none ∷ is) os w o = tt
  close_handles-Leaves ms k (some i ∷ is) os w o = elim (Option-cases (get_elem? os i)) [
    | inl e ↦ rw (close_handles, e) (close_handles-Leaves ms k is os w o.1)
    | inr (h, e) ↦
        rw (close_handles, e)
          (after_handle-Leaves k i os _ (close_handles http ring ms is) o.0
            (λ hs w'. close_handles-Leaves ms k is hs w' o.1))
  ]

  -- If the Close returned, then this handle, which an Open has given to its caller, is open.
  abbrev pub LeavesOpen : ℕ → Ended (Node × World W B) → Type 0
  LeavesOpen k (returns (n, w)) =
      (n.closed ≡ true) × ((h : Handle) × (get_elem? n.objects k ≡ some h) × (h.closed ≡ false))
  LeavesOpen k _ = Unit {0}

  closed_node-LeavesOpen :
      (k : ℕ) (n : Node) (h : Handle) (r : Ended (List Handle × World W B))
      → n.closed ≡ true
      → get_elem? n.objects k ≡ some h
      → h.closed ≡ false
      → Leaves k n.objects r
      → LeavesOpen k (closed_node http ring n r)
  closed_node-LeavesOpen k n h waits c e o l = tt
  closed_node-LeavesOpen k n h (crashes p) c e o l = tt
  closed_node-LeavesOpen k n h (returns (hs, w)) c e o l = (c, (h, l ∙ e, o))

  close_by-LeavesOpen :
      (ms : ℕ → List Move) (k : ℕ) (w : World W B) (n : Node) (h : Handle) (r : Ended Service)
      → IsOther k n.handles
      → get_elem? n.objects k ≡ some h
      → h.closed ≡ false
      → LeavesOpen k (close_by http ring ms w n r)
  close_by-LeavesOpen ms k w n h waits other e o = tt
  close_by-LeavesOpen ms k w n h (crashes p) other e o = tt
  close_by-LeavesOpen ms k w n h (returns s) other e o =
      closed_node-LeavesOpen k (record n { service = s; closed = true }) h
        (close_handles http ring ms n.handles n.objects w) refl e o
        (close_handles-Leaves ms k n.handles n.objects w other)

  close-LeavesOpen :
      (ms : ℕ → List Move) (k : ℕ) (w : World W B) (n : Node) (h : Handle)
      → IsOther k n.handles
      → get_elem? n.objects k ≡ some h
      → h.closed ≡ false
      → LeavesOpen k (close http ring ms w n)
  unfolding close
  close-LeavesOpen ms k w n h other e o = elim (Bool-cases n.closed) [
    | inl c ↦ simp c (refl, (h, e, o))
    | inr c ↦ simp c (close_by-LeavesOpen ms k w n h (close_service n.service) other e o)
  ]

  module _ {R : Type 0} (client : Client R) where
    -- An Open that gave a handle has made it behind those that were made.
    abbrev Makes : Node → Outcome (Option ℕ) × Node × World W B → Type 0
    Makes n (ok (some i), n', w) =
        (i ≡ length n.objects)
        × ((h : Handle) × (n'.objects ≡ n.objects ++ h ∷ []) × (h.closed ≡ false))
    Makes n _ = Unit {0}

    keep_handle-Makes :
        (w : World W B) (n : Node) (made : Outcome (Stream W B) × Factory)
        → Makes n (keep_handle http ring client w n made)
    unfolding new_handle
    keep_handle-Makes w n (ok s, f) =
        (refl, ((new_handle w n.size (some (length w.streams))).0, refl, refl))
    keep_handle-Makes w n (err e, f) = tt
    keep_handle-Makes w n (panics p, f) = tt

    open_stream-Makes :
        (m : Moment W) (r : R) (w : World W B) (n : Node) (f : Option Factory)
        → Makes n (open_stream http ring client m r w n f).0
    unfolding open_stream
    open_stream-Makes m r w n none = tt
    open_stream-Makes m r w n (some f) = keep_handle-Makes w n _

    open_handle-Makes :
        (m : Moment W) (r : R) (w : World W B) (n : Node)
        → Makes n (open_handle http ring client m r w n).0
    unfolding open_handle
    open_handle-Makes m r w n = elim (Bool-cases n.service.closed) [
      | inl c ↦ simp c tt
      | inr c ↦ simp c (open_stream-Makes m r w n n.service.stream_factory)
    ]

    -- When two calls of Open of an open and well-formed streamable node both make a handle, the
    -- second on what the first left, but both read the field handles before one of them stores it,
    -- then, whichever of the two handles it ends with, a Close of the node that returns leaves the
    -- other handle open.
    pub lost_handle_stays_open :
        (m m' : Moment W) (r r' r'' : R) (w w' w'' : World W B) (n n' n'' : Node) (i j : ℕ)
        (first_stays : Bool) (ms : ℕ → List Move)
        → n.closed ≡ false
        → IsWell w.streams n
        → open_handle http ring client m r w n ≡ ((ok (some i), n', w'), r')
        → open_handle http ring client m' r' w' n' ≡ ((ok (some j), n'', w''), r'')
        → LeavesOpen (if first_stays then j else i) (
            close http ring ms w''
              (store_handle n.handles (some (if first_stays then i else j)) n''))
    unfolding store_handle
    lost_handle_stays_open m m' r r' r'' w w' w'' n n' n'' i j first_stays ms c well e e' =
        let (service, supplied, held, settled) : WellBy false w.streams n =
          subst (λ b. WellBy b w.streams n) c well in
        let (at, (h, made, running)) : Makes n (ok (some i), n', w') =
          subst (λ q. Makes n q.0) e (open_handle-Makes m r w n) in
        let (at', (h', made', running')) : Makes n' (ok (some j), n'', w'') =
          subst (λ q. Makes n' q.0) e' (open_handle-Makes m' r' w' n') in
        let next : j ≡ i + 1 = omega (arith, at, at', length-snoc n.objects h, ap length made) in
        let first : get_elem? n''.objects i ≡ some h =
          ap (λ l. get_elem? l i)
            (made' ∙ ap (λ l. l ++ h' ∷ []) made ∙ append_assoc n.objects (h ∷ []) (h' ∷ []))
          ∙ ap (get_elem? (n.objects ++ h ∷ h' ∷ [])) at
          ∙ get_elem?-append n.objects h (h' ∷ []) in
        let second : get_elem? n''.objects j ≡ some h' =
          ap (λ l. get_elem? l j) made'
          ∙ ap (get_elem? (n'.objects ++ h' ∷ [])) at'
          ∙ get_elem?-append n'.objects h' [] in
        let other : (k l : ℕ) → i ≤ k → l ≢ k → IsOther k (n.handles ++ some l ∷ []) = λ k l b ne.
          IsOther-snoc k l n.handles
            (Held-IsOther 0 k n.handles n.objects held (omega (arith, at, b))) ne in
        let end : ℕ → Node = λ l. store_handle n.handles (some l) n'' in
        elim first_stays
          as (λ b.
            LeavesOpen (if b then j else i)
              (close http ring ms w'' (store_handle n.handles (some (if b then i else j)) n''))) [
                | true ↦
                    close-LeavesOpen ms j w'' (end i) h'
                      (other j i (omega (arith, next)) (λ q. omega (arith, q, next))) second
                      running'
                | false ↦
                    close-LeavesOpen ms i w'' (end j) h
                      (other i j (omega arith) (λ q. omega (arith, q, next))) first running
              ]
