-- ===== src/Fuse/Streamable/Stopping.antt =====
-- `Close` of a handle of filesystem/server/provider/fuse/filesystem/streamable/handle/main.go and of its
-- stream, among the streams that the handles share.
use mathlib.Core.Path.{subst}
use fuse_video_streamer.Base.{
  ℕ, ◌≡◌, refl, sym, inl, inr, true, false, Option, none, some, List, get_elem?, set, Bool-cases,
  Option-cases, arith,
}
use fuse_video_streamer.Go.{Error}
use fuse_video_streamer.Stream.External.{Http, Ring}
use fuse_video_streamer.Stream.Transfer.{Move, Transfer}
use fuse_video_streamer.Stream.Core.{Stream, close_former, close_transfer}
use fuse_video_streamer.Stream.Core
use fuse_video_streamer.Fuse.Streamable.Handle.{Handle, World, close_stream, close}
use fuse_video_streamer.Fuse.Streamable.World.{
  set-StreamBy, StreamBy, StreamBy-weaken, Extends, Extends-set, SettledBy, Settled, Over,
}

module _ {W B : Type 0} (http : Http W) (ring : Ring B) where
  IsShut : Option (Error × Stream W B) → Type 0
  IsShut none = Unit {0}
  IsShut (some (e, s)) = s.closed ≡ true

  close_former-IsShut :
      (ms : List Move) (s : Stream W B) (t : Option (Transfer W B))
      → s.closed ≡ true
      → IsShut (close_transfer http ring (close_former http ring ms s t))
  unfolding close_former close_transfer IsShut
  close_former-IsShut ms s none c = c
  close_former-IsShut ms s (some t) c = ground arith

  -- However `Close` of a stream ends, the stream is closed.
  close-IsShut : (ms : List Move) (s : Stream W B) → IsShut (Core.close http ring ms s)
  unfolding Core.close IsShut
  close-IsShut ms s = elim (Bool-cases s.closed) [
    | inl c ↦ simp c refl
    | inr c ↦ elim (Bool-cases s.has_buffer) [
      | inl b ↦ elim (Option-cases (ring.close_ring s.ring).0) [
        | inl e ↦ simp (c, b, e) (close_former-IsShut ms _ s.transfer refl)
        | inr (x, e) ↦ simp (c, b, e) refl
      ]
      | inr b ↦ simp (c, b) (close_former-IsShut ms _ s.transfer refl)
    ]
  ]

  -- The stream of this index is closed, and no stream was opened again.
  abbrev pub Stops : List (Stream W B) → ℕ → Option (World W B) → Type 0
  Stops ss i none = Unit {0}
  Stops ss i (some w) =
      Extends ss w.streams
      × (StreamBy false (get_elem? ss i) → StreamBy true (get_elem? w.streams i))

  abbrev stored : World W B → ℕ → Option (Error × Stream W B) → Option (World W B)
  stored w i r = elim r [
    | none ↦ none
    | some (e, s) ↦ some (record w { streams = set w.streams i s })
  ]

  stored-Stops :
      (w : World W B) (i : ℕ) (r : Option (Error × Stream W B))
      → IsShut r
      → Stops w.streams i (stored w i r)
  unfolding IsShut
  stored-Stops w i none c = tt
  stored-Stops w i (some (e, s)) c = (Extends-set w.streams i s c, set-StreamBy w.streams i s c)

  close_stream-none :
      (ms : List Move) (w : World W B) (i : ℕ)
      → get_elem? w.streams i ≡ none
      → close_stream http ring ms w i ≡ some w
  unfolding close_stream
  close_stream-none ms w i e = ground arith

  close_stream-some :
      (ms : List Move) (w : World W B) (i : ℕ) (s : Stream W B)
      → get_elem? w.streams i ≡ some s
      → close_stream http ring ms w i ≡ stored w i (Core.close http ring ms s)
  unfolding close_stream
  close_stream-some ms w i s e = rw (close_stream, e) refl

  pub close_stream-Stops :
      (ms : List Move) (w : World W B) (i : ℕ) → Stops w.streams i (close_stream http ring ms w i)
  close_stream-Stops ms w i = elim (Option-cases (get_elem? w.streams i)) [
    | inl e ↦
        subst (Stops w.streams i) (sym (close_stream-none ms w i e))
          (λ j must b. b, λ b. absurd (subst (StreamBy false) e b))
    | inr (s, e) ↦
        subst (Stops w.streams i) (sym (close_stream-some ms w i s e))
          (stored-Stops w i (Core.close http ring ms s) (close-IsShut ms s))
  ]

  -- The handle is over, and no stream was opened again.
  abbrev pub Ends : List (Stream W B) → Option (Handle × World W B) → Type 0
  Ends ss none = Unit {0}
  Ends ss (some (h, w)) = Over w.streams h × Extends ss w.streams

  close_stream-Ends :
      (ss : List (Stream W B)) (i : ℕ) (h : Handle) (r : Option (World W B))
      → h.closed ≡ true
      → h.stream ≡ some i
      → StreamBy false (get_elem? ss i)
      → Stops ss i r
      → Ends ss (elim r [ none ↦ none | some w' ↦ some (h, w') ])
  close_stream-Ends ss i h none c e b s = tt
  close_stream-Ends ss i h (some w) c e b (more, stops) = ((c, simp (c, e) (stops b)), more)

  -- A `Close` of a settled handle, however its schedule goes.
  pub close-Ends :
      (ms : List Move) (w : World W B) (h : Handle)
      → Settled w.streams h
      → Ends w.streams (close http ring ms w h)
  unfolding close
  close-Ends ms w h s = elim (Bool-cases h.closed) [
    | inl c ↦ simp c ((refl, subst (λ b. SettledBy w.streams b h.stream) c s), λ j must b. b)
    | inr c ↦ elim (Option-cases h.stream) [
      | inl e ↦ simp (c, e) ((refl, tt), λ j must b. b)
      | inr (i, e) ↦
          simp (c, e)
            (close_stream-Ends w.streams i (record h { closed = true })
              (close_stream http ring ms w i) refl e
              (StreamBy-weaken h.closed (get_elem? w.streams i)
                (subst (SettledBy w.streams h.closed) e s))
              (close_stream-Stops ms w i))
    ]
  ]
