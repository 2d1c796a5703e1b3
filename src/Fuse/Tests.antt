-- ===== src/Fuse/Tests.antt =====
-- The theorems about the nodes and handles, at concrete inputs.
use fuse_video_streamer.Base.{
  ℕ, ◌≡◌, refl, none, some, List, [], ◌∷◌, arith, take, false, true, Option, ◌+◌,
}
use fuse_video_streamer.Base.Int.{pos, ◌+ℤ◌, ◌-ℤ◌}
use fuse_video_streamer.Stream.Size.{stream_start_position}
use fuse_video_streamer.Stream.Connection.{new_connection}
use fuse_video_streamer.Stream.Connection
use fuse_video_streamer.Stream.Transfer.{starts, copies, step, start_step, copy_step}
use fuse_video_streamer.Stream.Transfer
use fuse_video_streamer.Stream.Core.{
  moves, new, close_former, new_transfer, start_transfer, read_at, read_at_begin, read_at_end,
  request, read_buffer, occurs, occur,
}
use fuse_video_streamer.Stream.Tests.Setup as Files
use fuse_video_streamer.Fuse.Streamable.Handle.{
  Handle, World, Circumstances, ReadReturn, replies, crashes, deliver, read_stream, read,
}
use fuse_video_streamer.Stream.Core.Placed.{new-IsPlaced}
use fuse_video_streamer.Fuse.Streamable.Serving.{Answers, read-Answers}
use fuse_video_streamer.Fuse.Streamable.Handle.Replies.{second_read_overwrites_first_reply}
use fuse_video_streamer.Stream.Tests.Setup.{ring, http}
use fuse_video_streamer.Fuse.Pool.{small_video_buffer, Buffer, BufferPool, get_buffer, put_buffer}
use fuse_video_streamer.Fuse.Pool.Sizes.{IsSized, Hands, get_buffer-Hands, put_buffer-get_buffer}

abbrev held : Buffer
held = record { address = 1; len = small_video_buffer }

-- One buffer is in the pool, another one is out.
abbrev two_made : BufferPool
two_made = record {
  small_pool = (record { address = 0; len = small_video_buffer }) ∷ [];
  medium_pool = [];
  large_pool = [];
  max_pool = [];
  next = 2;
}

two_made-IsSized : IsSized two_made
two_made-IsSized = record {
  small = (refl, tt);
  medium = tt;
  large = tt;
  max = tt;
  distinct = (omega arith, tt, tt);
}

get_buffer-Hands_example : Hands two_made (get_buffer (some 0) two_made (pos 300))
get_buffer-Hands_example = get_buffer-Hands (some 0) two_made (pos 300) two_made-IsSized

put_buffer-get_buffer_example :
    IsSized (put_buffer two_made (some held))
    × (get_buffer (some 0) (put_buffer two_made (some held)) (pos 300) ≡ (held, two_made))
put_buffer-get_buffer_example =
    put_buffer-get_buffer two_made held (pos 300) two_made-IsSized
      (omega arith, ((λ e. omega (arith, e)), tt)) refl

-- Two handles with a stream each. Every read is of two bytes, and waits for `start` and `copyData`.
abbrev start_world : World (List ℕ) Files.Buffer
start_world = record {
  increment_id = 2;
  streams = new http ring "1" [] "url" (pos 5) ∷ new http ring "2" [] "url" (pos 5) ∷ [];
  pool = two_made;
  memory = λ a. [];
}

abbrev handle_of : ℕ → Handle
handle_of i = record { id = i + 1; node_size = 5; stream = some i; closed = false }

abbrev circumstances : Circumstances
circumstances = record {
  choice = some 0;
  starting = [];
  events =
      moves (starts true) ∷ moves (starts true) ∷ moves copies ∷ moves copies ∷ moves copies ∷ [];
  waited = true;
  closing = [];
}

abbrev world_of :
    Option (ReadReturn × Handle × World (List ℕ) Files.Buffer) → World (List ℕ) Files.Buffer
world_of none = start_world
world_of (some (r, h, w)) = w

abbrev return_of : Option (ReadReturn × Handle × World (List ℕ) Files.Buffer) → ReadReturn
return_of none = crashes
return_of (some (r, h, w)) = r

abbrev once : World (List ℕ) Files.Buffer
once = world_of (read http ring circumstances start_world (handle_of 0) 2 (pos 1))

abbrev twice : World (List ℕ) Files.Buffer
twice = world_of (read http ring circumstances once (handle_of 1) 2 (pos 3))

abbrev address_of : ReadReturn → ℕ
address_of (replies a k) = a
address_of _ = 100

abbrev first_address : ℕ
first_address =
    address_of (return_of (read http ring circumstances start_world (handle_of 0) 2 (pos 1)))

abbrev second_address : ℕ
second_address = address_of (return_of (read http ring circumstances once (handle_of 1) 2 (pos 3)))

-- The first reply's bytes, before and after the second read.
overwritten : (take 2 (once.memory 0) ≡ 11 ∷ 12 ∷ []) × (take 2 (twice.memory 0) ≡ 13 ∷ 14 ∷ [])
unfolding read read_stream deliver get_buffer put_buffer read_at read_at_begin read_at_end request
    read_buffer occurs occur new new_transfer start_transfer close_former stream_start_position
    new_connection Transfer.new_transfer step start_step copy_step Connection.read ◌+ℤ◌ ◌-ℤ◌
overwritten = (refl, refl)

second_read_overwrites_first_reply_example : second_address ≡ first_address
unfolding read read_stream deliver get_buffer put_buffer read_at read_at_begin read_at_end request
    read_buffer occurs occur new new_transfer start_transfer close_former stream_start_position
    new_connection Transfer.new_transfer step start_step copy_step Connection.read ◌+ℤ◌ ◌-ℤ◌
second_read_overwrites_first_reply_example =
    second_read_overwrites_first_reply http ring circumstances circumstances start_world once twice
      (handle_of 0) (handle_of 1) (handle_of 0) (handle_of 1) 2 2 (pos 1) (pos 3) first_address
      second_address 2 2 two_made-IsSized refl refl refl

-- Two bytes at the position 1.
read-Answers_example :
    Answers Files.file Files.unread Files.first_of_buffer Files.window_of "url"
      (handle_of 0)
      0
      2
      1
      (read http ring circumstances start_world (handle_of 0) 2 (pos 1))
unfolding new
read-Answers_example =
    read-Answers Files.file Files.unread Files.first_of_buffer Files.window_of "url" http ring
      (Files.serves "url") Files.buffers circumstances start_world (handle_of 0) 0 2 1
      (new http ring "1" [] "url" (pos 5)) refl refl refl tt tt
      (new-IsPlaced Files.file Files.unread Files.first_of_buffer Files.window_of "url" http ring
        (Files.serves "url") Files.buffers "1" [] 5)
