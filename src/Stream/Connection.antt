-- ===== src/Stream/Connection.antt =====
-- stream/connection/main.go: the HTTP body of one range request, opened by the first read.
-- `W` is the state of the network. One goroutine reads a connection and another may close it: a call
-- of `read` or `close` is one step here; Stream/Transfer interleaves such steps.
pub mod Laws
pub mod Answering
use Prim.Native.String.{String}
use fuse_video_streamer.Base.{
  ℕ, Bool, true, false, ◌&&◌, not, Option, none, some, List, [], ◌==◌, if◌then◌else◌,
}
use fuse_video_streamer.Base.Int.{ℤ, pos, ltb_ℤ}
use fuse_video_streamer.Go.{
  GoError, failure, wrapped, Error, Outcome, ok, err, invalid_seek_position,
  failed_to_create_request, failed_to_do_request, failed_to_get_partial_content, error_closing_body,
}
use fuse_video_streamer.Stream.External.{Http, Request, Response, Reply, response, refused}

-- `canceled` is whether `cancel` was called on the connection's context.
pub record Connection : Type 0 where
  pub url : String
  pub start_position : ℤ
  pub canceled : Bool
  pub body : Option ℕ
  pub closed : Bool

unfoldable pub new_connection : String → ℤ → Outcome Connection
new_connection url start_position =
    if ltb_ℤ start_position (pos 0)
    then err (failure invalid_seek_position)
    else ok (record {
      url = url;
      start_position = start_position;
      canceled = false;
      body = none;
      closed = false;
    })

-- What `Read` returns: the bytes it put into the buffer, and the error.
abbrev pub ReadResult : Type 0
ReadResult = List ℕ × Error

abbrev pub status_ok : ℕ
status_ok = 200

abbrev pub status_partial_content : ℕ
status_partial_content = 206

abbrev pub request_of : Connection → Request
request_of c = record { url = c.url; range_start = c.start_position; canceled = c.canceled }

module _ {W : Type 0} (http : Http W) where
  -- The answer to the request: `connection.body` is set only behind the test of the status.
  receive : W → Connection → ℕ → Reply → ReadResult × Connection × W
  receive w c n (refused e) = (([], some (wrapped failed_to_do_request e)), c, w)
  receive w c n (response r) =
      if not (r.status_code == status_partial_content) && not (r.status_code == status_ok)
      then (([], some (failure failed_to_get_partial_content)), c, w)
      else let (result, w') = http.body_read w r.body n in
        (result, record c { body = some r.body }, w')

  -- The part of `Read` under the write lock.
  open_body : W → Connection → ℕ → ReadResult × Connection × W
  unfolding receive
  open_body w c n = if c.closed then (([], none), c, w) else elim (http.new_request c.url) [
    | some e ↦ (([], some (failure failed_to_create_request)), c, w)
    | none ↦ let (reply, w') = http.round_trip w (request_of c) in receive w' c n reply
  ]

  -- `connection.Read(buf)` with `len(buf)` equal to `n`.
  unfoldable pub read : W → Connection → ℕ → ReadResult × Connection × W
  unfolding open_body
  read w c n = if c.closed then (([], none), c, w) else elim c.body [
    | some b ↦ let (result, w') = http.body_read w b n in (result, c, w')
    | none ↦ open_body w c n
  ]

  -- `connection.Close()`
  unfoldable pub close : W → Connection → Error × Connection × W
  close w c =
      if c.closed
      then (none, c, w)
      else let c' = record c { closed = true; canceled = true } in
        elim c.body [
          | none ↦ (none, c', w)
          | some b ↦
              let (e, w') = http.body_close w b in
              elim e [
                | some inner ↦ (some (wrapped error_closing_body inner), c', w')
                | none ↦ (none, record c' { body = none }, w')
              ]
        ]
