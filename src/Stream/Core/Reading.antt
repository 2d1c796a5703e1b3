-- ===== src/Stream/Core/Reading.antt =====
-- Theorems about what `ReadAt` of stream/main.go returns.
use Prim.Native.String.{String}
use fuse_video_streamer.Base.{
  ℕ, zero, suc, ◌+◌, ◌-◌, ◌≤◌, ◌≡◌, refl, ap, ◌∙◌, ◌⊎◌, inl, inr, Bool, true, false, not, ◌&&◌,
  Option, none, some, List, [], ◌∷◌, ◌++◌, append_assoc, arith, length, drop, drop-add, drop-nil,
  Option-cases, Bool-cases,
}
use fuse_video_streamer.Base.Int.{pos, ◌+ℤ◌, min_ℤ}
use fuse_video_streamer.Stream.Size.{stream_start_position}
use fuse_video_streamer.Stream.Size.Bounds.{stream_start_position_nonneg}
use fuse_video_streamer.Stream.External.{Http, Ring, Serves, Buffers}
use fuse_video_streamer.Stream.Transfer.{Move}
use fuse_video_streamer.Stream.Core.{
  Stream, close_former, Progress, gives, awaits, panicked, Event, read_buffer, request,
  read_at_begin, occurs, read_at_end, read_at,
}
use fuse_video_streamer.Stream.Core.Starting.{restarted, new_transfer_starts, new_transfer_blocked}
use fuse_video_streamer.Stream.Core.Placed.{
  Slice, IsPlaced, PlacedBy-Slice, ClosesQuietly, close_former-AllQuiet, close_former-url,
  restarted-IsPlaced, Undisturbed, occurs-IsPlaced,
}

module _ {ℓ} {A : Type ℓ} where
  -- A part of the front of a list, taken from some place on, is a part of the list from there on.
  pub drop-append_le :
      (d : ℕ) (xs ys : List A) → drop d (xs ++ ys) ≡ drop d xs ++ drop (d - length xs) ys
  drop-append_le d [] ys = let e : d ≡ d - 0 = omega arith in rw drop-nil (ap (λ k. drop k ys) e)
  drop-append_le zero (x ∷ xs) ys =
      let e : 0 ≡ 0 - suc (length xs) = omega arith in ap (λ k. x ∷ xs ++ drop k ys) e
  drop-append_le (suc d) (x ∷ xs) ys =
      let e : d - length xs ≡ suc d - suc (length xs) = omega arith in
      drop-append_le d xs ys ∙ ap (λ k. drop d xs ++ drop k ys) e

-- The bytes are what the file holds at the position, and at most `n`.
abbrev pub IsAt : List ℕ → ℕ → ℕ → List ℕ → Type 0
IsAt file seek n bytes = (length bytes ≤ n) × ((rest : List ℕ) × (drop seek file ≡ bytes ++ rest))

module _ {W B : Type 0} (file : List ℕ) (unread : W → ℕ → List ℕ) (first : B → ℕ)
    (window : B → List ℕ) (url : String) where
  IsAt-window :
      (b : B) (n seek : ℕ) (bytes : List ℕ)
      → Slice file unread first window url b
      → length bytes ≤ n
      → (bytes ≡ [])
        ⊎ ((first b ≤ seek)
            × ((behind : List ℕ) × (drop (seek - first b) (window b) ≡ bytes ++ behind)))
      → IsAt file seek n bytes
  IsAt-window b n seek bytes slice short (inl e) = (short, (drop seek file, rw e))
  IsAt-window b n seek bytes (rest, a) short (inr (before, (behind, e))) =
      let d = seek - first b in
      let sum : seek ≡ first b + d = omega arith in
      let tail = drop (d - length (window b)) rest in
      (
        short,
        (
          behind ++ tail,
          ap (λ k. drop k file) sum
              ∙ drop-add (first b) d file
              ∙ ap (drop d) a
              ∙ drop-append_le d (window b) rest
              ∙ ap (λ l. l ++ tail) e
              ∙ append_assoc bytes behind tail,
        ),
      )

  -- What a read hands out is at its place in the file.
  abbrev pub Right : ℕ → ℕ → Progress → Type 0
  Right seek n (gives bytes e) = IsAt file seek n bytes
  Right seek n (awaits requested) = Unit {0}
  Right seek n panicked = Unit {0}

  -- A call that returned gave the file's bytes and left the stream placed.
  abbrev pub RightResult : ℕ → ℕ → Option (Progress × Stream W B) → Type 0
  RightResult seek n none = Unit {0}
  RightResult seek n (some (r, s)) = Right seek n r × IsPlaced file unread first window url s

  module _ (http : Http W) (ring : Ring B) (serves : Serves http url file unread)
      (buffers : Buffers ring first window) where
    read_buffer-Right :
        (s : Stream W B) (n seek : ℕ)
        → IsPlaced file unread first window url s
        → Right seek n (read_buffer http ring s n (pos seek))
    unfolding read_buffer
    read_buffer-Right s n seek p = elim (Bool-cases s.has_buffer) [
      | inr off ↦ rw (off, read_buffer) tt
      | inl on ↦
          let (short, found) = buffers.read_gives s.ring n seek in
          rw (on, read_buffer)
            (IsAt-window s.ring n seek (ring.read_at s.ring n (pos seek)).0
              (PlacedBy-Slice file unread first window url s s.transfer p.placed) short found)
    ]

    empty-IsAt : (seek n : ℕ) → IsAt file seek n []
    empty-IsAt seek n = (omega arith, (drop seek file, refl))

    request-Right :
        (s : Stream W B) (n seek : ℕ)
        → IsPlaced file unread first window url s
        → Right seek n (request http ring s n (pos seek))
    unfolding request
    request-Right s n seek p =
        elim (Bool-cases (ring.is_position_available s.ring (min_ℤ (pos seek +ℤ pos n) s.size))) [
          | inl e ↦ rw (e, request) (read_buffer-Right s n seek p)
          | inr e ↦ rw (e, request) tt
        ]

    begin_transfer-Right :
        (ms : List Move) (s : Stream W B) (n seek : ℕ)
        → s.closed ≡ false
        → s.has_buffer ≡ true
        → ring.is_position_available s.ring (pos seek) ≡ false
        → ClosesQuietly http ring ms s s.transfer
        → IsPlaced file unread first window url s
        → RightResult seek n (read_at_begin http ring ms s n (pos seek))
    unfolding read_at_begin
    begin_transfer-Right ms s n seek c b a q p =
        elim (Option-cases (close_former http ring ms s s.transfer)) [
          | inl e ↦ simp (c, b, a, new_transfer_blocked http ring ms s (pos seek) c b e) tt
          | inr (s', e) ↦
              let start = stream_start_position s.size (pos seek) in
              let p' =
                restarted-IsPlaced file unread first window url http ring serves buffers s' start
                  (stream_start_position_nonneg s.size (pos seek))
                  (close_former-url file unread first window url http ring serves buffers ms s
                    s.transfer p e)
                  (close_former-AllQuiet file unread first window url http ring serves buffers ms s
                    s.transfer refl q p e) in
              simp (c, b, a, new_transfer_starts http ring ms s s' (pos seek) c b e)
                (request-Right (restarted http ring s' start) n seek p', p')
        ]

    begin-Right :
        (ms : List Move) (s : Stream W B) (n seek : ℕ)
        → ClosesQuietly http ring ms s s.transfer
        → IsPlaced file unread first window url s
        → RightResult seek n (read_at_begin http ring ms s n (pos seek))
    unfolding read_at_begin
    begin-Right ms s n seek q p = elim (Bool-cases s.closed) [
      | inl c ↦ simp (c) (empty-IsAt seek n, p)
      | inr c ↦ elim (Bool-cases s.has_buffer) [
        | inr b ↦ simp (c, b) (empty-IsAt seek n, p)
        | inl b ↦ elim (Bool-cases (ring.is_position_available s.ring (pos seek))) [
          | inl a ↦ simp (c, b, a) (request-Right s n seek p, p)
          | inr a ↦ begin_transfer-Right ms s n seek c b a q p
        ]
      ]
    ]

    end-Right :
        (waited : Bool) (s : Stream W B) (n seek : ℕ)
        → IsPlaced file unread first window url s
        → Right seek n (read_at_end http ring waited s n (pos seek))
    unfolding read_at_end
    end-Right waited s n seek p = elim (Bool-cases (not waited && not s.closed)) [
      | inl e ↦ rw (e, read_at_end) (empty-IsAt seek n)
      | inr e ↦ rw (e, read_at_end) (read_buffer-Right s n seek p)
    ]

    resume-Right :
        (es : List Event) (waited : Bool) (s : Stream W B) (n seek : ℕ)
        → Undisturbed es
        → IsPlaced file unread first window url s
        → RightResult seek n (elim (occurs http ring es s) [
          | none ↦ none
          | some s' ↦ some (read_at_end http ring waited s' n (pos seek), s')
        ])
    resume-Right es waited s n seek u p = elim (Option-cases (occurs http ring es s)) [
      | inl e ↦ rw e tt
      | inr (s', e) ↦
          let p' : IsPlaced file unread first window url s' =
            rw e at
              (occurs-IsPlaced file unread first window url http ring serves buffers es s u p) in
          rw e (end-Right waited s' n seek p', p')
    ]

    -- On a placed stream, whose address is one where the server has a file, whatever ReadAt gives
    -- at a position that is not negative are the bytes of that file at that position, at most as
    -- many as asked for, and the stream stays placed, under any schedule of the transfers' threads
    -- in which nobody closes the stream and a transfer that is closed has quiet threads when its
    -- Close returns.
    pub read_at-RightResult :
        (ms : List Move) (es : List Event) (waited : Bool) (s : Stream W B) (n seek : ℕ)
        → ClosesQuietly http ring ms s s.transfer
        → Undisturbed es
        → IsPlaced file unread first window url s
        → RightResult seek n (read_at http ring ms es waited s n (pos seek))
    unfolding read_at
    read_at-RightResult ms es waited s n seek q u p =
        go (read_at_begin http ring ms s n (pos seek)) (begin-Right ms s n seek q p)
      where
        go :
            (r : Option (Progress × Stream W B))
            → RightResult seek n r
            → RightResult seek n (elim r [
              | none ↦ none
              | some (gives bytes e, s') ↦ some (gives bytes e, s')
              | some (panicked, s') ↦ some (panicked, s')
              | some (awaits requested, s') ↦ elim (occurs http ring es s') [
                | none ↦ none
                | some s'' ↦ some (read_at_end http ring waited s'' n (pos seek), s'')
              ]
            ])
        go none h = tt
        go (some (gives bytes e, s')) h = h
        go (some (panicked, s')) h = h
        go (some (awaits requested, s')) h = resume-Right es waited s' n seek u h.1
