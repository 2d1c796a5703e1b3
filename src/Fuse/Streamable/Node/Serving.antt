-- ===== src/Fuse/Streamable/Node/Serving.antt =====
-- An Open of filesystem/server/provider/fuse/filesystem/streamable/node/main.go and a Read of the handle
-- that it gives.
use Prim.Native.String.{String}
use mathlib.Core.Path.{subst}
use fuse_video_streamer.Base.{
  ℕ, ◌<◌, ◌^◌, ◌≡◌, refl, sym, ap, inl, inr, true, false, Option, List, none, some, [], arith,
  length, get_elem?, get_elem?-append, Bool-cases, leb,
}
use fuse_video_streamer.Base.Int.{pos, signed64, i64_max}
use fuse_video_streamer.Go.{Outcome, ok, err, panics}
use fuse_video_streamer.Client.{Client}
use fuse_video_streamer.Stream.External.{Http, Ring, Serves, Buffers}
use fuse_video_streamer.Stream.Core.{Stream, new}
use fuse_video_streamer.Stream.Core.Placed.{IsPlaced, Undisturbed, new-IsPlaced, ClosesQuietly}
use fuse_video_streamer.Stream.Factory.{Factory, make_stream, new_stream, get_stream_url}
use fuse_video_streamer.Fuse.Streamable.Handle.{Handle, World, new_handle, Circumstances, read}
use fuse_video_streamer.Fuse.Streamable.Serving.{Answers, read-Answers}
use fuse_video_streamer.Fuse.Streamable.Node.{
  Node, Moment, keep_handle, open_stream, open_handle, open_node,
}

signed64-small : (n : ℕ) → n < 2 ^ 63 → signed64 n ≡ pos n
unfolding signed64
signed64-small n b = let fits : leb n i64_max ≡ true = ground (arith, b) in rw fits refl

module _ {W B : Type 0} (file : List ℕ) (unread : W → ℕ → List ℕ) (first : B → ℕ)
    (window : B → List ℕ) (url : String) where
  -- A new stream is placed and has no transfer.
  abbrev IsFresh : Stream W B → Type 0
  IsFresh s = IsPlaced file unread first window url s × (s.transfer ≡ none)

  abbrev Fresh : Outcome (Stream W B) × Factory → Type 0
  Fresh (ok s, f) = IsFresh s
  Fresh (err e, f) = Unit {0}
  Fresh (panics p, f) = Unit {0}

  -- The handle that was given is there, open, of that size and on a stream of its own, which is fresh.
  abbrev pub Opened : ℕ → Outcome (Option ℕ) × Node × World W B → Type 0
  Opened size (ok (some k), n, w) =
      (h : Handle) × (i : ℕ) × (s : Stream W B) × (get_elem? n.objects k ≡ some h)
      × (h.closed ≡ false)
      × (h.node_size ≡ size)
      × (h.stream ≡ some i)
      × (get_elem? w.streams i ≡ some s)
      × IsFresh s
  Opened size _ = Unit {0}

  module _ (http : Http W) (ring : Ring B) (serves : Serves http url file unread)
      (buffers : Buffers ring first window) {R : Type 0} (client : Client R) where
    make_stream-Fresh :
        (id : String) (w : W) (size : ℕ) (f : Factory)
        → size < 2 ^ 63
        → Fresh (make_stream client http ring id w size (ok url), f)
    unfolding make_stream new
    make_stream-Fresh id w size f b =
        let same : new http ring id w url (pos size) ≡ new http ring id w url (signed64 size) =
          ap (new http ring id w url) (sym (signed64-small size b)) in
        subst IsFresh same
          (new-IsPlaced file unread first window url http ring serves buffers id w size, refl)

    new_stream-Fresh :
        (m : Moment W) (r : R) (f : Factory) (identifier size : ℕ)
        → size < 2 ^ 63
        → (get_stream_url client m.now m.later r f identifier).0.0 ≡ ok url
        → Fresh (new_stream client http ring m.id m.network m.now m.later r f identifier size).0
    unfolding new_stream
    new_stream-Fresh m r f identifier size b found = elim (Bool-cases f.closed) [
      | inl c ↦ simp c tt
      | inr c ↦
          let ((o, f'), r') = get_stream_url client m.now m.later r f identifier in
          simp c (
            subst (λ x. Fresh (make_stream client http ring m.id m.network size x, f')) (sym found)
              (make_stream-Fresh m.id m.network size f' b))
    ]

    keep_handle-Opened :
        (w : World W B) (n : Node) (made : Outcome (Stream W B) × Factory)
        → Fresh made
        → Opened n.size (keep_handle http ring client w n made)
    unfolding new_handle
    keep_handle-Opened w n (ok s, f) fresh =
        let (h, w') = new_handle w n.size (some (length w.streams)) in
        (
          h,
          length w.streams,
          s,
          get_elem?-append n.objects h [],
          refl,
          refl,
          refl,
          get_elem?-append w.streams s [],
          fresh,
        )
    keep_handle-Opened w n (err e, f) fresh = tt
    keep_handle-Opened w n (panics p, f) fresh = tt

    open_stream-Opened :
        (m : Moment W) (r : R) (w : World W B) (n : Node) (f : Factory)
        → n.size < 2 ^ 63
        → (get_stream_url client m.now m.later r f n.identifier).0.0 ≡ ok url
        → Opened n.size (open_stream http ring client m r w n (some f)).0
    unfolding open_stream
    open_stream-Opened m r w n f b found =
        keep_handle-Opened w n _ (new_stream-Fresh m r f n.identifier n.size b found)

    open_node-Opened :
        (m : Moment W) (r : R) (w : World W B) (n : Node) (f : Factory)
        → n.size < 2 ^ 63
        → n.service.stream_factory ≡ some f
        → (get_stream_url client m.now m.later r f n.identifier).0.0 ≡ ok url
        → Opened n.size (open_node http ring client m r w n).0
    unfolding open_node open_handle
    open_node-Opened m r w n f b has found = elim (Bool-cases n.closed) [
      | inl c ↦ simp c tt
      | inr c ↦ elim (Bool-cases n.service.closed) [
        | inl d ↦ simp (c, d) tt
        | inr d ↦
            simp (c, d)
              (subst (λ o. Opened n.size (open_stream http ring client m r w n o).0) (sym has)
                (open_stream-Opened m r w n f b found))
      ]
    ]

    -- When an Open of a streamable node, whose size fits in an int64, succeeds with a handle that
    -- is not nil, and its stream factory gives for the node's identifier an address where the
    -- server has a file, then the handle is there, open, has the node's size and is on a stream at
    -- that address, and if a Read of it at an offset that is not negative replies, what the reply
    -- points to is what that file holds at the offset, at most as many bytes as asked for, the
    -- handle is as it was and its stream placed, under any schedule in which nobody closes the
    -- stream meanwhile.
    pub open_node-read-Answers :
        (m : Moment W) (r r' : R) (w w' : World W B) (n n' : Node) (f : Factory) (k : ℕ)
        (c : Circumstances) (bytes offset : ℕ)
        → n.size < 2 ^ 63
        → n.service.stream_factory ≡ some f
        → (get_stream_url client m.now m.later r f n.identifier).0.0 ≡ ok url
        → open_node http ring client m r w n ≡ ((ok (some k), n', w'), r')
        → Undisturbed c.events
        → (h : Handle) × (i : ℕ) × (s : Stream W B) × (get_elem? n'.objects k ≡ some h)
          × (h.closed ≡ false)
          × (h.node_size ≡ n.size)
          × (h.stream ≡ some i)
          × (get_elem? w'.streams i ≡ some s)
          × (s.url ≡ url)
          × Answers file unread first window url h i bytes offset
              (read http ring c w' h bytes (pos offset))
    open_node-read-Answers m r r' w w' n n' f k c bytes offset b has found opens undisturbed =
        let (h, i, s, made, running, size, holds, there, fresh) : Opened n.size
            (ok (some k), n', w') =
          subst (λ q. Opened n.size q.0) opens (open_node-Opened m r w n f b has found) in
        let quiet : ClosesQuietly http ring c.starting s s.transfer =
          subst (ClosesQuietly http ring c.starting s) (sym fresh.1) tt in
        (
          h,
          i,
          s,
          made,
          running,
          size,
          holds,
          there,
          fresh.0.located,
          read-Answers file unread first window url http ring serves buffers c w' h i bytes offset s
              running holds there quiet undisturbed fresh.0,
        )
