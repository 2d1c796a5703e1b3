-- ===== src/Stream/Connection/Laws.antt =====
-- Theorems about a connection of stream/connection/main.go: the order of its bytes, and its `Close`.
use Prim.Native.String.{String}
use fuse_video_streamer.Base.{
  ℕ, ◌≡◌, refl, true, false, none, some, Option, List, [], ◌++◌, drop, arith, Option-cases, inl,
  inr,
}
use fuse_video_streamer.Base.Int.{ℤ, pos, negsuc, ◌≤ℤ◌}
use fuse_video_streamer.Go.{ok}
use fuse_video_streamer.Stream.External.{Http, Serves, Reply, refused, response}
use fuse_video_streamer.Stream.Connection.{
  Connection, new_connection, ReadResult, request_of, receive, open_body, read, close,
}

-- A fresh connection for a position that is not negative.
abbrev pub fresh : String → ℤ → Connection
fresh url start = record {
  url = url;
  start_position = start;
  canceled = false;
  body = none;
  closed = false;
}

pub new_connection-nonneg :
    (url : String) (start : ℤ) → pos 0 ≤ℤ start → new_connection url start ≡ ok (fresh url start)
unfolding new_connection
new_connection-nonneg url (pos n) h = ground arith
new_connection-nonneg url (negsuc n) h = absurd (omega arith)

module _ {W : Type 0} (http : Http W) where
  -- A closed connection gives nothing and no error, and leaves the network alone.
  pub read-closed :
      (w : W) (c : Connection) (n : ℕ) → c.closed ≡ true → read http w c n ≡ (([], none), c, w)
  unfolding read
  read-closed w c n h = rw h

  pub close-closed : (w : W) (c : Connection) → (close http w c).1.closed ≡ true
  unfolding close
  close-closed w c = ground arith

  -- The first `Close` cancels the request's context too, whether the body closes or not.
  pub close-canceled :
      (w : W) (c : Connection) → c.closed ≡ false → (close http w c).1.canceled ≡ true
  unfolding close
  close-canceled w c h = ground arith

  -- A second `Close` does nothing.
  pub close-close :
      (w : W) (c : Connection)
      → let (e, c', w') = close http w c in close http w' c' ≡ (none, c', w')
  unfolding close
  close-close w c = ground arith

-- What the connection has yet to give.
abbrev pub pending : {W : Type 0} → List ℕ → (W → ℕ → List ℕ) → ℕ → W → Option ℕ → List ℕ
pending file unread start w (some b) = unread w b
pending file unread start w none = drop start file

module _ {W : Type 0} (http : Http W) (url : String) (file : List ℕ) (unread : W → ℕ → List ℕ) where
  -- A read takes its bytes off the front of what the connection has yet to give.
  abbrev pub InOrder : ℕ → W → Connection → ReadResult × Connection × W → Type 0
  InOrder start w c r =
      (pending file unread start w c.body ≡ r.0.0 ++ pending file unread start r.2 r.1.body)
      × (r.1.start_position ≡ pos start)
      × (r.1.url ≡ url)

  receive-InOrder :
      Serves http url file unread
      → (w : W) (c : Connection) (n start : ℕ) (reply : Reply)
      → (http.round_trip w (request_of c)).0 ≡ reply
      → c.url ≡ url
      → c.start_position ≡ pos start
      → c.body ≡ none
      → InOrder start w c (receive http (http.round_trip w (request_of c)).1 c n reply)
  unfolding receive
  receive-InOrder s w c n start (refused e) got here begin unset = ground arith
  receive-InOrder s w c n start (response r) got here begin unset = ground (
    arith,
    s.honours_range w (request_of c) start r here begin got,
    s.reads_in_order (http.round_trip w (request_of c)).1 r.body n,
  )

  -- A read of a connection takes its bytes off the front of what the connection has yet to give of
  -- its range, and keeps its address.
  pub read-InOrder :
      Serves http url file unread
      → (w : W) (c : Connection) (n start : ℕ) → c.url ≡ url
      → c.start_position ≡ pos start
      → InOrder start w c (read http w c n)
  unfolding read open_body
  read-InOrder s w c n start here begin = elim (Option-cases c.body) [
    | inr (b, e) ↦ ground (arith, s.reads_in_order w b n)
    | inl e ↦ ground (
      arith,
      receive-InOrder s w c n start (http.round_trip w (request_of c)).0 refl here begin e,
    )
  ]
