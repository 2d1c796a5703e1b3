-- ===== src/Fuse/Streamable/Handle.antt =====
-- filesystem/server/provider/fuse/filesystem/streamable/handle/main.go. The handles' streams, the
-- pool's byte buffers and their contents are shared: a stream and a buffer are known by a number.
pub mod Replies
use fuse_video_streamer.Base.{
  ℕ, ◌+◌, ◌%◌, ◌^◌, Bool, true, false, Option, none, some, List, [], ◌∷◌, ◌++◌, length, drop,
  get_elem?, set, if◌then◌else◌, ltb, ◌==◌,
}
use fuse_video_streamer.Base.Int.{ℤ, signed64}
use fuse_video_streamer.Go.{GoError, enoent, eof, Error}
use fuse_video_streamer.Stream.External.{Http, Ring}
use fuse_video_streamer.Stream.Transfer.{Move}
use fuse_video_streamer.Stream.Core.{Stream, Progress, gives, awaits, panicked, Event, read_at}
use fuse_video_streamer.Stream.Core
use fuse_video_streamer.Fuse.Pool.{Buffer, BufferPool, get_buffer, put_buffer}

-- `stream` is none where the pointer is nil. Of the node a handle uses its size.
pub record Handle : Type 0 where
  pub id : ℕ
  pub node_size : ℕ
  pub stream : Option ℕ
  pub closed : Bool

-- `incrementId`, the streams, the pool, and what each byte buffer holds, by its address.
pub record World (W B : Type 0) : Type 0 where
  pub increment_id : ℕ
  pub streams : List (Stream W B)
  pub pool : BufferPool
  pub memory : ℕ → List ℕ

-- `handle.New`. The counter is a uint64.
unfoldable pub new_handle : {W B : Type 0} → World W B → ℕ → Option ℕ → Handle × World W B
new_handle w node_size stream =
    let id = (w.increment_id + 1) % 2 ^ 64 in
    (
      record { id = id; node_size = node_size; stream = stream; closed = false },
      record w { increment_id = id },
    )

-- What a call of `Read` meets: the pool's choice, what happens inside `ReadAt`, and the schedule
-- of the `Close` of a stream.
pub record Circumstances : Type 0 where
  pub choice : Option ℕ
  pub starting : List Move
  pub events : List Event
  pub waited : Bool
  pub closing : List Move

-- `readResponse.Data` is a part of a byte buffer: so many bytes at its beginning.
pub data ReadReturn : Type 0 where
  replies : ℕ → ℕ → ReadReturn
  fails : GoError → ReadReturn
  crashes : ReadReturn

-- The bytes at the beginning of a buffer are written over.
abbrev pub store : (ℕ → List ℕ) → ℕ → List ℕ → ℕ → List ℕ
store memory address bytes a =
    if a == address then bytes ++ drop (length bytes) (memory a) else memory a

module _ {W B : Type 0} (http : Http W) (ring : Ring B) where
  -- `stream.Close()`, whose error is dropped; `none` while it has not returned.
  unfoldable pub close_stream : List Move → World W B → ℕ → Option (World W B)
  close_stream ms w i = elim (get_elem? w.streams i) [
    | none ↦ some w
    | some s ↦ elim (Core.close http ring ms s) [
      | none ↦ none
      | some (e, s') ↦ some (record w { streams = set w.streams i s' })
    ]
  ]

  -- `handle.Close()`, which always returns nil. The pointer to the stream stays.
  unfoldable pub close : List Move → World W B → Handle → Option (Handle × World W B)
  close ms w h =
      if h.closed
      then some (h, w)
      else let h' = record h { closed = true } in
        elim h.stream [
          | none ↦ some (h', w)
          | some i ↦ elim (close_stream ms w i) [ none ↦ none | some w' ↦ some (h', w') ]
        ]

  -- `Release` closes the handle.
  unfoldable pub release : List Move → World W B → Handle → Option (Handle × World W B)
  release ms w h = close ms w h

  -- The `default` of the `switch err`: the stream is closed and its pointer dropped.
  unfoldable pub give_up :
      List Move
      → World W B
      → Handle
      → ℕ
      → Buffer
      → GoError
      → Option (ReadReturn × Handle × World W B)
  give_up ms w h i b e = elim (close_stream ms w i) [
    | none ↦ none
    | some w' ↦
        some (fails e, record h { stream = none }, record w' { pool = put_buffer w'.pool (some b) })
  ]

  -- The `switch err` behind `ReadAt`, and the deferred `PutBuffer`.
  unfoldable pub deliver :
      List Move
      → World W B
      → Handle
      → ℕ
      → Buffer
      → Progress
      → Option (ReadReturn × Handle × World W B)
  deliver ms w h i b panicked = some (crashes, h, record w { pool = put_buffer w.pool (some b) })
  deliver ms w h i b (awaits requested) = none
  deliver ms w h i b (gives bytes none) = some (
    replies b.address (length bytes),
    h,
    record w { memory = store w.memory b.address bytes; pool = put_buffer w.pool (some b) },
  )
  deliver ms w h i b (gives bytes (some eof)) = some (
    replies b.address (length bytes),
    h,
    record w { memory = store w.memory b.address bytes; pool = put_buffer w.pool (some b) },
  )
  deliver ms w h i b (gives bytes (some e)) =
      give_up ms (record w { memory = store w.memory b.address bytes }) h i b e

  -- From `GetBuffer` on. `buffer[:n]` panics if the buffer is shorter.
  unfoldable pub read_stream :
      Circumstances → World W B → Handle → ℕ → ℕ → ℤ → Option (ReadReturn × Handle × World W B)
  read_stream c w h i n offset =
      let (b, pool) = get_buffer c.choice w.pool (signed64 h.node_size) in
      if ltb b.len n
      then some (crashes, h, record w { pool = put_buffer pool (some b) })
      else elim (get_elem? w.streams i) [
        | none ↦ none
        | some s ↦ elim (read_at http ring c.starting c.events c.waited s n offset) [
          | none ↦ none
          | some (r, s') ↦
              deliver c.closing (record w { pool = pool; streams = set w.streams i s' }) h i b r
        ]
      ]

  -- `handle.Read` of `n` bytes at `offset`; `none` while a call in it has not returned.
  unfoldable pub read :
      Circumstances → World W B → Handle → ℕ → ℤ → Option (ReadReturn × Handle × World W B)
  read c w h n offset = if h.closed then some (fails enoent, h, w) else elim h.stream [
    | none ↦ elim (close c.closing w h) [
      | none ↦ none
      | some (h', w') ↦ some (fails enoent, h', w')
    ]
    | some i ↦ read_stream c w h i n offset
  ]
