-- ===== src/Stream/Size.antt =====
-- stream/main.go: the constants, and the sizes of the ring buffer and of the part before the seek
-- position that is fetched too. What stands behind the `return` of both functions never runs.
pub mod Bounds
use fuse_video_streamer.Base.{◌*◌}
use fuse_video_streamer.Base.Int.{ℤ, pos, min_ℤ, max_ℤ, half_ℤ, ◌-ℤ◌}

abbrev pub small_video_buffer : ℤ
small_video_buffer = pos (64 * 1024 * 1024)

abbrev pub medium_video_buffer : ℤ
medium_video_buffer = pos (256 * 1024 * 1024)

abbrev pub large_video_buffer : ℤ
large_video_buffer = pos (512 * 1024 * 1024)

abbrev pub max_buffer_size : ℤ
max_buffer_size = pos (1024 * 1024 * 1024)

abbrev pub max_preload_size : ℤ
max_preload_size = pos (16 * 1024 * 1024)

unfoldable pub calculate_buffer_size : ℤ → ℤ
calculate_buffer_size file_size = min_ℤ file_size small_video_buffer

unfoldable pub calculate_preload_size : ℤ → ℤ
calculate_preload_size buffer_size = min_ℤ (half_ℤ buffer_size) max_preload_size

-- `newTransfer`: where the transfer for a seek position starts.
unfoldable pub stream_start_position : ℤ → ℤ → ℤ
unfolding calculate_buffer_size calculate_preload_size
stream_start_position size start_position =
    let buffer_size = calculate_buffer_size size in
    let preload_size = calculate_preload_size buffer_size in
    max_ℤ (pos 0) (start_position -ℤ preload_size)
