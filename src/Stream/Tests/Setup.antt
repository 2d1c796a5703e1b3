-- ===== src/Stream/Tests/Setup.antt =====
-- A server with one file, whose only body is what is still unread, and a ring buffer that never
-- drops anything.
use Prim.Native.String.{String}
use fuse_video_streamer.Base.{
  ℕ, ◌+◌, ◌-◌, ◌≤◌, ◌≡◌, refl, sym, inl, inr, Bool, false, ◌&&◌, none, some, List, [], ◌∷◌, ◌++◌,
  arith, length, take, drop, length-take, take-append-drop, drop-nil, leb, ltb, if◌then◌else◌,
  Bool-cases, leb→le, ◌⊎◌,
}
use Prim.Native.String.{String}
use fuse_video_streamer.Base.Int.{ℤ, pos, negsuc}
use fuse_video_streamer.Go.{Error, eof}
use fuse_video_streamer.Stream.External.{Http, response, Ring, Serves, Buffers}
use fuse_video_streamer.Stream.Connection.Answering.{Answers}

abbrev pub file : List ℕ
file = 10 ∷ 11 ∷ 12 ∷ 13 ∷ 14 ∷ []

abbrev pub at_most : ℤ → ℕ
at_most (pos n) = n
at_most (negsuc n) = 0

abbrev pub end_of : List ℕ → Error
end_of [] = some eof
end_of (x ∷ xs) = none

-- A request makes the unread bytes those of its range.
abbrev pub http : Http (List ℕ)
http = record {
  new_request = λ url. none;
  round_trip =
      λ w r. (response (record { status_code = 206; body = 0 }), drop (at_most r.range_start) file);
  body_read = λ w b n. ((take n w, end_of w), drop n w);
  body_close = λ w b. (none, w);
}

abbrev pub unread : List ℕ → ℕ → List ℕ
unread w b = w

pub serves : (url : String) → Serves http url file unread
serves url = record {
  honours_range = λ w r n reply here begins got. rw begins;
  reads_in_order = λ w b n. sym (take-append-drop n w);
}

gives_bytes :
    (w : List ℕ) (n : ℕ)
    → 1 ≤ n
    → ((end_of w ≡ none) × (1 ≤ length (take n w))) ⊎ ((end_of w ≡ some eof) × (drop n w ≡ []))
gives_bytes [] n room = inr (refl, drop-nil n)
gives_bytes (x ∷ xs) n room = inl (refl, omega (arith, length-take n (x ∷ xs)))

pub answers : Answers http unread
answers = record {
  makes_request = λ url. refl;
  gives_partial = λ w r going. (0, refl);
  gives_bytes = λ w b n room. gives_bytes w n room;
}

pub record Buffer : Type 0 where
  pub first : ℕ
  pub window : List ℕ

abbrev pub read_window : Buffer → ℕ → ℤ → List ℕ × Error
read_window b n (negsuc p) = ([], some eof)
read_window b n (pos p) =
    if leb b.first p then (take n (drop (p - b.first) b.window), none) else ([], some eof)

abbrev pub holds : Buffer → ℤ → Bool
holds b (negsuc p) = false
holds b (pos p) = leb b.first p && ltb p (b.first + length b.window)

abbrev pub ring : Ring Buffer
ring = record {
  new_ring = λ size start. record { first = at_most start; window = [] };
  is_position_available = holds;
  reset_to_position = λ b start. record { first = at_most start; window = [] };
  read_at = read_window;
  write = λ b bytes. (none, record b { window = b.window ++ bytes });
  write_eof_marker = λ b. b;
  close_ring = λ b. (none, b);
}

abbrev pub first_of_buffer : Buffer → ℕ
first_of_buffer b = b.first

abbrev pub window_of : Buffer → List ℕ
window_of b = b.window

read_window-found :
    (b : Buffer) (n p : ℕ)
    → (length (read_window b n (pos p)).0 ≤ n)
      × (((read_window b n (pos p)).0 ≡ [])
          ⊎ ((b.first ≤ p)
              × ((behind : List ℕ) × (drop (p - b.first) b.window
                    ≡ (read_window b n (pos p)).0 ++ behind))))
read_window-found b n p = elim (Bool-cases (leb b.first p)) [
  | inl e ↦ rw e (
    omega (arith, length-take n (drop (p - b.first) b.window)),
    inr (
      leb→le b.first p e,
      (
        drop n (drop (p - b.first) b.window),
        sym (take-append-drop n (drop (p - b.first) b.window)),
      ),
    ),
  )
  | inr e ↦ rw e (omega arith, inl refl)
]

pub buffers : Buffers ring first_of_buffer window_of
buffers = record {
  new_empties = λ size. (refl, refl);
  reset_empties = λ b p. (refl, refl);
  write_appends = λ b bytes ok. ([], refl, omega arith);
  failed_write_keeps = λ b bytes e failed. cc;
  marker_keeps = λ b. (refl, refl);
  read_gives = read_window-found;
}
