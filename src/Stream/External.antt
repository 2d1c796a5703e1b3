-- ===== src/Stream/External.antt =====
-- What the stream packages call and do not implement: net/http over the network, and the
-- ring buffer of github.com/sushydev/ring_buffer_go. `W` is the state of the network, `B` that of a
-- ring buffer.
use Prim.Native.String.{String}
use fuse_video_streamer.Base.{
  ◌⊎◌, ℕ, ◌+◌, ◌-◌, ◌≤◌, ◌≡◌, Bool, none, some, List, [], ◌++◌, length, drop,
}
use fuse_video_streamer.Base.Int.{ℤ, pos}
use fuse_video_streamer.Go.{GoError, Error}

-- What the program sets of a request: the address, `Range: bytes=N-`, and whether the request's
-- context was canceled.
pub record Request : Type 0 where
  pub url : String
  pub range_start : ℤ
  pub canceled : Bool

-- A body is known by a number.
pub record Response : Type 0 where
  pub status_code : ℕ
  pub body : ℕ

pub data Reply : Type 0 where
  response : Response → Reply
  refused : GoError → Reply

pub record Http (W : Type 0) : Type 0 where
  -- The error of `http.NewRequestWithContext`, which depends on the address.
  pub new_request : String → Error
  pub round_trip : W → Request → Reply × W
  -- `body.Read(buf)` with room for so many bytes.
  pub body_read : W → ℕ → ℕ → (List ℕ × Error) × W
  pub body_close : W → ℕ → Error × W

pub record Ring (B : Type 0) : Type 0 where
  -- `NewLockingRingBuffer(size, startPosition)`
  pub new_ring : ℤ → ℤ → B
  pub is_position_available : B → ℤ → Bool
  pub reset_to_position : B → ℤ → B
  pub read_at : B → ℕ → ℤ → List ℕ × Error
  pub write : B → List ℕ → Error × B
  pub write_eof_marker : B → B
  pub close_ring : B → Error × B

-- The server has the file `file` at the address `url` and keeps to the range that it is asked for;
-- `unread w b` are the bytes that the body `b` has yet to give.
pub record Serves {W : Type 0} (http : Http W) (url : String) (file : List ℕ)
    (unread : W → ℕ → List ℕ) : Type 0 where
  pub honours_range :
      (w : W) (r : Request) (n : ℕ) (reply : Response)
      → r.url ≡ url
      → r.range_start ≡ pos n
      → (http.round_trip w r).0 ≡ response reply
      → unread (http.round_trip w r).1 reply.body ≡ drop n file
  pub reads_in_order :
      (w : W) (b n : ℕ)
      → unread w b ≡ (http.body_read w b n).0.0 ++ unread (http.body_read w b n).1 b

-- A ring buffer holds the consecutive bytes `window` that begin at the position `first`. A write
-- puts bytes behind them and may drop some from the front. A read gives what stands at the
-- position, as far as it goes, or nothing.
pub record Buffers {B : Type 0} (ring : Ring B) (first : B → ℕ) (window : B → List ℕ) : Type 0 where
  pub new_empties :
      (size : ℕ)
      → (first (ring.new_ring (pos size) (pos 0)) ≡ 0)
        × (window (ring.new_ring (pos size) (pos 0)) ≡ [])
  pub reset_empties :
      (b : B) (p : ℕ)
      → (first (ring.reset_to_position b (pos p)) ≡ p)
        × (window (ring.reset_to_position b (pos p)) ≡ [])
  pub write_appends :
      (b : B) (bytes : List ℕ)
      → (ring.write b bytes).0 ≡ none
      → (dropped : List ℕ) × (window b ++ bytes ≡ dropped ++ window (ring.write b bytes).1)
        × (first (ring.write b bytes).1 ≡ first b + length dropped)
  pub failed_write_keeps :
      (b : B) (bytes : List ℕ) (e : GoError)
      → (ring.write b bytes).0 ≡ some e
      → (first (ring.write b bytes).1 ≡ first b) × (window (ring.write b bytes).1 ≡ window b)
  pub marker_keeps :
      (b : B)
      → (first (ring.write_eof_marker b) ≡ first b) × (window (ring.write_eof_marker b) ≡ window b)
  pub read_gives :
      (b : B) (n p : ℕ)
      → (length (ring.read_at b n (pos p)).0 ≤ n)
        × (((ring.read_at b n (pos p)).0 ≡ [])
            ⊎ ((first b ≤ p)
                × ((behind : List ℕ) × (drop (p - first b) (window b)
                      ≡ (ring.read_at b n (pos p)).0 ++ behind))))
