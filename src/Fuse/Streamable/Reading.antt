-- ===== src/Fuse/Streamable/Reading.antt =====
-- What `Read` and `Release` of filesystem/server/provider/fuse/filesystem/streamable/handle/main.go leave
-- of the streams.
use mathlib.Core.Path.{subst}
use fuse_video_streamer.Base.{
  ℕ, ◌≡◌, refl, sym, ◌∙◌, inl, inr, Bool, true, false, Option, none, some, List, [], ◌∷◌, zero, suc,
  get_elem?, set, ltb, Bool-cases, Option-cases,
}
use fuse_video_streamer.Base.Int.{ℤ, signed64}
use fuse_video_streamer.Go.{GoError, eof, enoent}
use fuse_video_streamer.Stream.External.{Http, Ring}
use fuse_video_streamer.Stream.Transfer.{Move}
use fuse_video_streamer.Stream.Core.{Stream, Progress, gives, awaits, panicked, Event, read_at}
use fuse_video_streamer.Stream.Core.Closing.{read_at-closed}
use fuse_video_streamer.Fuse.Pool.{Buffer, get_buffer, put_buffer}
use fuse_video_streamer.Fuse.Streamable.Handle.{
  Handle, World, Circumstances, ReadReturn, fails, store, close_stream, close, release, give_up,
  deliver, read_stream, read,
}
use fuse_video_streamer.Fuse.Streamable.World.{
  StreamBy, Extends, Settled, SettledBy, SettledBy-Extends,
}
use fuse_video_streamer.Fuse.Streamable.Stopping.{Ends, close-Ends, Stops, close_stream-Stops}

module _ {W B : Type 0} where
  StreamBy-keeps :
      (must : Bool) (s s' : Stream W B)
      → (s.closed ≡ true → s'.closed ≡ true)
      → StreamBy must (some s)
      → StreamBy must (some s')
  StreamBy-keeps false s s' k b = tt
  StreamBy-keeps true s s' k b = k b

  Extends-replace :
      (ss : List (Stream W B)) (i : ℕ) (s s' : Stream W B)
      → get_elem? ss i ≡ some s
      → (s.closed ≡ true → s'.closed ≡ true)
      → Extends ss (set ss i s')
  Extends-replace [] i s s' e k j must b = b
  Extends-replace (x ∷ ss) zero s s' e k zero must b =
      StreamBy-keeps must s s' k (subst (StreamBy must) e b)
  Extends-replace (x ∷ ss) zero s s' e k (suc j) must b = b
  Extends-replace (x ∷ ss) (suc i) s s' e k zero must b = b
  Extends-replace (x ∷ ss) (suc i) s s' e k (suc j) must b = Extends-replace ss i s s' e k j must b

  -- From one handle to the next: it is settled, closed if it was, and no stream was opened again.
  abbrev pub Carried : List (Stream W B) → Handle → Handle → List (Stream W B) → Type 0
  Carried ss h h' ts = Settled ts h' × (h.closed ≡ true → h'.closed ≡ true) × Extends ss ts

module _ {W B : Type 0} (http : Http W) (ring : Ring B) where
  abbrev LeftClosed : Option (Progress × Stream W B) → Type 0
  LeftClosed none = Unit {0}
  LeftClosed (some (p, s)) = s.closed ≡ true

  -- A `ReadAt` of a closed stream leaves it.
  read_at_keeps :
      (ms : List Move) (es : List Event) (waited : Bool) (s s' : Stream W B) (p : Progress) (n : ℕ)
      (seek : ℤ)
      → read_at http ring ms es waited s n seek ≡ some (p, s')
      → s.closed ≡ true
      → s'.closed ≡ true
  read_at_keeps ms es waited s s' p n seek e c =
      subst LeftClosed (sym (read_at-closed http ring ms es waited s n seek c) ∙ e) c

  -- What a call left of the handle and the streams.
  abbrev pub CarriedBy :
      List (Stream W B) → Handle → Option (ReadReturn × Handle × World W B) → Type 0
  CarriedBy ss h none = Unit {0}
  CarriedBy ss h (some (r, h', w)) = Carried ss h h' w.streams

  give_up-CarriedBy :
      (ss : List (Stream W B)) (w : World W B) (h : Handle) (i : ℕ) (b : Buffer) (e : GoError)
      (r : Option (World W B))
      → Extends ss w.streams
      → Stops http ring w.streams i r
      → CarriedBy ss h (elim r [
        | none ↦ none
        | some w' ↦
            some (
              fails e,
              record h { stream = none },
              record w' { pool = put_buffer w'.pool (some b) },
            )
      ])
  give_up-CarriedBy ss w h i b e none more stops = tt
  give_up-CarriedBy ss w h i b e (some w') more (further, stops) =
      (tt, (λ c. c), (λ j must x. further j must (more j must x)))

  deliver-CarriedBy :
      (ss : List (Stream W B)) (ms : List Move) (w : World W B) (h : Handle) (i : ℕ) (b : Buffer)
      (p : Progress)
      → Settled ss h
      → Extends ss w.streams
      → CarriedBy ss h (deliver http ring ms w h i b p)
  unfolding deliver give_up
  deliver-CarriedBy ss ms w h i b panicked s more =
      (SettledBy-Extends ss w.streams h.closed h.stream more s, (λ c. c), more)
  deliver-CarriedBy ss ms w h i b (awaits requested) s more = tt
  deliver-CarriedBy ss ms w h i b (gives bytes none) s more =
      (SettledBy-Extends ss w.streams h.closed h.stream more s, (λ c. c), more)
  deliver-CarriedBy ss ms w h i b (gives bytes (some eof)) s more =
      (SettledBy-Extends ss w.streams h.closed h.stream more s, (λ c. c), more)
  deliver-CarriedBy ss ms w h i b (gives bytes (some e)) s more =
      let v : World W B = record w { memory = store w.memory b.address bytes } in
      give_up-CarriedBy ss v h i b e (close_stream http ring ms v i) more
        (close_stream-Stops http ring ms v i)

  read_stream-CarriedBy :
      (c : Circumstances) (w : World W B) (h : Handle) (i n : ℕ) (offset : ℤ)
      → Settled w.streams h
      → CarriedBy w.streams h (read_stream http ring c w h i n offset)
  unfolding read_stream
  read_stream-CarriedBy c w h i n offset s =
      let (b, pool) = get_buffer c.choice w.pool (signed64 h.node_size) in
      elim (Bool-cases (ltb b.len n)) [
        | inl e ↦ rw e (s, (λ q. q), (λ j must x. x))
        | inr e ↦ elim (Option-cases (get_elem? w.streams i)) [
          | inl q ↦ rw (e, q) tt
          | inr (t, q) ↦
              elim (Option-cases (read_at http ring c.starting c.events c.waited t n offset)) [
                | inl r ↦ rw (e, q, r) tt
                | inr ((p, t'), r) ↦
                    rw (e, q, r)
                      (deliver-CarriedBy w.streams c.closing
                        (record w { pool = pool; streams = set w.streams i t' }) h i b p s
                        (Extends-replace w.streams i t t' q
                          (read_at_keeps c.starting c.events c.waited t t' p n offset r)))
              ]
        ]
      ]

  closing-CarriedBy :
      (ss : List (Stream W B)) (h : Handle) (r : Option (Handle × World W B))
      → Ends http ring ss r
      → CarriedBy ss h (elim r [ none ↦ none | some (h', w') ↦ some (fails enoent, h', w') ])
  closing-CarriedBy ss h none e = tt
  closing-CarriedBy ss h (some (h', w')) ((c, s), more) = (s, (λ q. c), more)

  -- A `Read` of a settled handle, whatever happens in it.
  pub read-CarriedBy :
      (c : Circumstances) (w : World W B) (h : Handle) (n : ℕ) (offset : ℤ)
      → Settled w.streams h
      → CarriedBy w.streams h (read http ring c w h n offset)
  unfolding read
  read-CarriedBy c w h n offset s = elim (Bool-cases h.closed) [
    | inl e ↦ simp e (subst (λ b. SettledBy w.streams b h.stream) e s, (λ q. refl), (λ j must x. x))
    | inr e ↦ elim (Option-cases h.stream) [
      | inl q ↦
          simp (e, q)
            (closing-CarriedBy w.streams h (close http ring c.closing w h)
              (close-Ends http ring c.closing w h s))
      | inr (i, q) ↦ simp (e, q) (read_stream-CarriedBy c w h i n offset s)
    ]
  ]

  released-Carried :
      (ss : List (Stream W B)) (h h' : Handle) (w : World W B) (r : Option (Handle × World W B))
      → Ends http ring ss r
      → r ≡ some (h', w)
      → Carried ss h h' w.streams
  released-Carried ss h h' w r ends e =
      let (over, more) = subst (Ends http ring ss) e ends in (over.1, (λ c. over.0), more)

  -- A `Release` of a settled handle that returned.
  pub release-Carried :
      (ms : List Move) (v w : World W B) (h h' : Handle)
      → Settled v.streams h
      → release http ring ms v h ≡ some (h', w)
      → Carried v.streams h h' w.streams
  unfolding release
  release-Carried ms v w h h' s e =
      released-Carried v.streams h h' w (close http ring ms v h) (close-Ends http ring ms v h s) e
