-- ===== src/Fuse/Streamable/Serving.antt =====
-- `Read` of filesystem/server/provider/fuse/filesystem/streamable/handle/main.go over the stream of
-- stream/main.go: the bytes of its replies.
use Prim.Native.String.{String}
use fuse_video_streamer.Base.{
  ℕ, ◌≡◌, refl, sym, inl, inr, true, false, Option, none, some, List, ◌==◌, arith, length, take,
  drop, get_elem?, set, ltb, Bool-cases, Option-cases, take-append, get_elem?-set-same,
}
use mathlib.Core.Path.{subst}
use fuse_video_streamer.Base.Int.{pos, signed64}
use fuse_video_streamer.Go.{GoError, eof}
use fuse_video_streamer.Stream.External.{Http, Ring, Serves, Buffers}
use fuse_video_streamer.Stream.Transfer.{Move}
use fuse_video_streamer.Stream.Core.{Stream, Progress, gives, awaits, panicked, read_at}
use fuse_video_streamer.Stream.Core.Placed.{IsPlaced, ClosesQuietly, Undisturbed}
use fuse_video_streamer.Stream.Core.Reading.{IsAt, RightResult, read_at-RightResult}
use fuse_video_streamer.Fuse.Pool.{Buffer, get_buffer, put_buffer}
use fuse_video_streamer.Fuse.Streamable.Handle.{
  Handle, World, Circumstances, ReadReturn, replies, fails, crashes, store, close_stream, give_up,
  deliver, read_stream, read,
}

take-store :
    (memory : ℕ → List ℕ) (a : ℕ) (bytes : List ℕ)
    → take (length bytes) (store memory a bytes a) ≡ bytes
take-store memory a bytes =
    let same : (a == a) ≡ true = ground arith in
    rw same (take-append bytes (drop (length bytes) (memory a)))

module _ {W B : Type 0} (file : List ℕ) (unread : W → ℕ → List ℕ) (first : B → ℕ)
    (window : B → List ℕ) (url : String) where
  -- The stream with this number is there, and placed.
  abbrev pub Placed : ℕ → List (Stream W B) → Type 0
  Placed i ss =
      (s : Stream W B) × (get_elem? ss i ≡ some s) × IsPlaced file unread first window url s

  -- A reply lies in memory: it is what the file holds at the offset. The stream stays placed, and
  -- the handle as it was.
  abbrev pub Answers : Handle → ℕ → ℕ → ℕ → Option (ReadReturn × Handle × World W B) → Type 0
  Answers h i n offset none = Unit {0}
  Answers h i n offset (some (fails e, h', w)) = Unit {0}
  Answers h i n offset (some (crashes, h', w)) = Unit {0}
  Answers h i n offset (some (replies a k, h', w)) =
      IsAt file offset n (take k (w.memory a)) × (h' ≡ h) × Placed i w.streams

  module _ (http : Http W) (ring : Ring B) where
    give_up-Answers :
        (ms : List Move) (w : World W B) (g h : Handle) (i j n offset : ℕ) (b : Buffer)
        (e : GoError)
        → Answers g i n offset (give_up http ring ms w h j b e)
    unfolding give_up
    give_up-Answers ms w g h i j n offset b e =
        elim (Option-cases (close_stream http ring ms w j)) [
          | inl q ↦ rw (q, give_up) tt
          | inr (w', q) ↦ rw (q, give_up) tt
        ]

    stored-Answers :
        (w : World W B) (h : Handle) (i n offset : ℕ) (b : Buffer) (bytes : List ℕ)
        → IsAt file offset n bytes
        → Placed i w.streams
        → Answers h i n offset (
            some (
              replies b.address (length bytes),
              h,
              record w {
                memory = store w.memory b.address bytes;
                pool = put_buffer w.pool (some b);
              },
            ))
    stored-Answers w h i n offset b bytes at placed =
        (subst (IsAt file offset n) (sym (take-store w.memory b.address bytes)) at, refl, placed)

    deliver-Answers :
        (ms : List Move) (w : World W B) (h : Handle) (i n offset : ℕ) (b : Buffer) (p : Progress)
        (s : Stream W B)
        → RightResult file unread first window url offset n (some (p, s))
        → get_elem? w.streams i ≡ some s
        → Answers h i n offset (deliver http ring ms w h i b p)
    unfolding deliver
    deliver-Answers ms w h i n offset b panicked s r e = tt
    deliver-Answers ms w h i n offset b (awaits q) s r e = tt
    deliver-Answers ms w h i n offset b (gives bytes none) s (at, placed) e =
        stored-Answers w h i n offset b bytes at (s, e, placed)
    deliver-Answers ms w h i n offset b (gives bytes (some eof)) s (at, placed) e =
        stored-Answers w h i n offset b bytes at (s, e, placed)
    deliver-Answers ms w h i n offset b (gives bytes (some x)) s r e =
        give_up-Answers ms (record w { memory = store w.memory b.address bytes }) h h i i n offset b
          x

    module _ (serves : Serves http url file unread) (buffers : Buffers ring first window) where
      read_stream-Answers :
          (c : Circumstances) (w : World W B) (h : Handle) (i n offset : ℕ) (s : Stream W B)
          → get_elem? w.streams i ≡ some s
          → ClosesQuietly http ring c.starting s s.transfer
          → Undisturbed c.events
          → IsPlaced file unread first window url s
          → Answers h i n offset (read_stream http ring c w h i n (pos offset))
      unfolding read_stream
      read_stream-Answers c w h i n offset s e q u p =
          let (b, pool) = get_buffer c.choice w.pool (signed64 h.node_size) in
          let right =
            read_at-RightResult file unread first window url http ring serves buffers c.starting
              c.events c.waited s n offset q u p in
          elim (Bool-cases (ltb b.len n)) [
            | inl short ↦ rw (short, read_stream) tt
            | inr enough ↦
                elim (Option-cases
                  (read_at http ring c.starting c.events c.waited s n (pos offset))) [
                    | inl none_yet ↦ rw (enough, e, none_yet, read_stream) tt
                    | inr ((r, s'), gave) ↦
                        rw (enough, e, gave, read_stream)
                          (deliver-Answers c.closing
                            (record w { pool = pool; streams = set w.streams i s' }) h i n offset b
                            r s' (rw gave at right) (get_elem?-set-same w.streams i s s' e))
                  ]
          ]

      -- On an open handle whose stream is there and placed, at an address where the server has a
      -- file, if a Read at an offset that is not negative replies, then the part of the byte
      -- buffer that the reply points to holds what that file holds at the offset, at most as many
      -- bytes as asked for, the handle is as it was, and its stream is there and placed, under any
      -- schedule of the transfers' threads in which nobody closes the stream and a transfer that
      -- is closed has quiet threads when its Close returns.
      pub read-Answers :
          (c : Circumstances) (w : World W B) (h : Handle) (i n offset : ℕ) (s : Stream W B)
          → h.closed ≡ false
          → h.stream ≡ some i
          → get_elem? w.streams i ≡ some s
          → ClosesQuietly http ring c.starting s s.transfer
          → Undisturbed c.events
          → IsPlaced file unread first window url s
          → Answers h i n offset (read http ring c w h n (pos offset))
      unfolding read
      read-Answers c w h i n offset s running holds e q u p =
          simp (running, holds) (read_stream-Answers c w h i n offset s e q u p)
