-- ===== src/Stream/Connection/Answering.antt =====
-- The reads of a connection of stream/connection/main.go from a server that answers, and bodies that
-- give bytes until their end, as copyData of stream/transfer/main.go needs them.
use Prim.Native.String.{String}
use fuse_video_streamer.Base.{
  ℕ, ◌≤◌, ◌≡◌, refl, ◌∙◌, ◌⊎◌, inl, inr, false, Option, none, some, List, [], ◌++◌, length,
  Option-cases,
}
use fuse_video_streamer.Base.Int.{pos}
use fuse_video_streamer.Go.{eof}
use fuse_video_streamer.Stream.External.{Http, Request, response, Serves}
use fuse_video_streamer.Stream.Connection.{
  Connection, ReadResult, request_of, receive, open_body, read,
}
use fuse_video_streamer.Stream.Connection.Laws.{pending, read-InOrder}

-- Every request that is not canceled gets partial content, and a read of a body with room gives
-- bytes, or ends at the end of the body.
pub record Answers {W : Type 0} (http : Http W) (unread : W → ℕ → List ℕ) : Type 0 where
  pub makes_request : (url : String) → http.new_request url ≡ none
  pub gives_partial :
      (w : W) (r : Request)
      → r.canceled ≡ false
      → (b : ℕ) × ((http.round_trip w r).0 ≡ response (record { status_code = 206; body = b }))
  pub gives_bytes :
      (w : W) (b n : ℕ)
      → 1 ≤ n
      → (((http.body_read w b n).0.1 ≡ none) × (1 ≤ length (http.body_read w b n).0.0))
        ⊎ (((http.body_read w b n).0.1 ≡ some eof) × (unread (http.body_read w b n).1 b ≡ []))

module _ {W : Type 0} (url : String) (file : List ℕ) (unread : W → ℕ → List ℕ) (start : ℕ) where
  -- The connection is open and will give `rest`.
  abbrev pub IsOpen : W → List ℕ → Option Connection → Type 0
  IsOpen w rest none = ⊥
  IsOpen w rest (some c) =
      (c.closed ≡ false)
      × (c.canceled ≡ false)
      × (rest ≡ pending file unread start w c.body)
      × (c.start_position ≡ pos start)
      × (c.url ≡ url)

module _ {W : Type 0} (http : Http W) (url : String) (file : List ℕ) (unread : W → ℕ → List ℕ)
    (start : ℕ) where
  -- A read gave bytes, or came to the end of the file.
  abbrev pub Advances : ReadResult × Connection × W → Type 0
  Advances r =
      (r.1.closed ≡ false)
      × (r.1.canceled ≡ false)
      × (((r.0.1 ≡ none) × (1 ≤ length r.0.0))
          ⊎ ((r.0.1 ≡ some eof) × (pending file unread start r.2 r.1.body ≡ [])))

  receive-Advances :
      Answers http unread
      → (w : W) (c : Connection) (n b : ℕ) → 1 ≤ n
      → c.closed ≡ false
      → c.canceled ≡ false
      → Advances (receive http w c n (response (record { status_code = 206; body = b })))
  unfolding receive
  receive-Advances a w c n b room is_open going = (is_open, going, a.gives_bytes w b n room)

  pub read-Advances :
      Answers http unread
      → (w : W) (c : Connection) (n : ℕ) → 1 ≤ n
      → c.closed ≡ false
      → c.canceled ≡ false
      → Advances (read http w c n)
  unfolding read open_body
  read-Advances a w c n room is_open going = elim (Option-cases c.body) [
    | inr (b, e) ↦ rw (is_open, e) (is_open, going, rw e (a.gives_bytes w b n room))
    | inl e ↦
        let (b, got) = a.gives_partial w (request_of c) going in
        rw (is_open, e, is_open, a.makes_request c.url, got)
          (receive-Advances a (http.round_trip w (request_of c)).1 c n b room is_open going)
  ]

  -- A read takes its bytes off the rest, and the connection stays open.
  pub read-IsOpen :
      Serves http url file unread
      → Answers http unread
      → (w : W) (c : Connection) (n : ℕ) (rest : List ℕ) → 1 ≤ n
      → IsOpen url file unread start w rest (some c)
      → let (result, c', w') = read http w c n in
        (rest' : List ℕ) × (rest ≡ result.0 ++ rest')
        × IsOpen url file unread start w' rest' (some c')
        × (((result.1 ≡ none) × (1 ≤ length result.0)) ⊎ ((result.1 ≡ some eof) × (rest' ≡ [])))
  read-IsOpen s a w c n rest room (is_open, going, is, at_start, here) =
      let (order, kept, same) = read-InOrder http url file unread s w c n start here at_start in
      let (is_open', going', gave) = read-Advances a w c n room is_open going in
      (
        pending file unread start (read http w c n).2 (read http w c n).1.body,
        is ∙ order,
        (is_open', going', refl, kept, same),
        gave,
      )
