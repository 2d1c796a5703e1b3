-- ===== src/Stream/Size/Bounds.antt =====
-- How the sizes of stream/main.go bound one another.
use fuse_video_streamer.Base.{ℕ, ◌≤◌, ◌≡◌, ◌+◌, ◌-◌, ◌/◌, min, arith}
use fuse_video_streamer.Base.Int.{ℤ, pos, ◌≤ℤ◌, -ℤ-pos, i64_max}
use fuse_video_streamer.Stream.Size.{
  small_video_buffer, calculate_buffer_size, calculate_preload_size, stream_start_position,
}

-- No file, of whatever size, gets more than the small buffer, nor more than its own size.
pub calculate_buffer_size_le :
    (size : ℤ)
    → (calculate_buffer_size size ≤ℤ small_video_buffer) × (calculate_buffer_size size ≤ℤ size)
unfolding calculate_buffer_size
calculate_buffer_size_le size = (ground arith, ground arith)

abbrev pub small : ℕ
small = 67108864

abbrev pub preload : ℕ → ℕ
preload n = min (min n small / 2) 16777216

pub calculate_buffer_size-pos : (n : ℕ) → calculate_buffer_size (pos n) ≡ pos (min n small)
unfolding calculate_buffer_size
calculate_buffer_size-pos n = ground arith

pub calculate_preload_size-pos :
    (b : ℕ) → calculate_preload_size (pos b) ≡ pos (min (b / 2) 16777216)
unfolding calculate_preload_size
calculate_preload_size-pos b = ground arith

-- The transfer never starts before the file does, whatever the sizes and the seek position are.
pub stream_start_position_nonneg : (size seek : ℤ) → pos 0 ≤ℤ stream_start_position size seek
unfolding stream_start_position
stream_start_position_nonneg size seek = ground arith

pub stream_start_position-pos :
    (n seek : ℕ)
    → seek ≤ i64_max
    → stream_start_position (pos n) (pos seek) ≡ pos (seek - preload n)
unfolding stream_start_position
stream_start_position-pos n seek h =
    rw
      (
        calculate_buffer_size-pos n,
        calculate_preload_size-pos (min n small),
        -ℤ-pos seek (preload n) h (omega arith),
      )
      (ground arith)

-- For a file and a seek position that are not negative, the transfer starts at or before the seek
-- position, which then lies in the first half of the buffer; the buffer is no larger than the
-- file.
pub stream_start_position_bounds :
    (n seek : ℕ)
    → seek ≤ i64_max
    → (start : ℕ) × (buffer : ℕ) × (stream_start_position (pos n) (pos seek) ≡ pos start)
      × (calculate_buffer_size (pos n) ≡ pos buffer)
      × (start ≤ seek)
      × ((seek - start) + (seek - start) ≤ buffer)
      × (buffer ≤ n)
stream_start_position_bounds n seek h = (
  seek - preload n,
  min n small,
  stream_start_position-pos n seek h,
  calculate_buffer_size-pos n,
  omega arith,
  omega arith,
  omega arith,
)
