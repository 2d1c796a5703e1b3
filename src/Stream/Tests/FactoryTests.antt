-- ===== src/Stream/Tests/FactoryTests.antt =====
-- The theorem about the factory, at a concrete input.
use fuse_video_streamer.Base.{◌+◌, ◌≤◌, ◌<◌, ◌≡◌, refl, arith}
use fuse_video_streamer.Go.{ok}
use fuse_video_streamer.Client.Tests.{media}
use fuse_video_streamer.Stream.Factory.{fifteen_minutes, new_factory, store_url, get_stream_url}
use fuse_video_streamer.Stream.Factory.Cache.{get_stream_url-get_stream_url}

get_stream_url-get_stream_url_example :
    let f = (get_stream_url media 100 200 0 new_factory 1).0.1 in
    (300 < 200 + fifteen_minutes
      → get_stream_url media 300 400 7 f 1 ≡ ((ok "http://host/1", f), 7))
    × (200 + fifteen_minutes ≤ 300
        → get_stream_url media 300 400 7 f 1 ≡ (
          store_url media f 400 (media.file_system.get_stream_url 7 1).0,
          (media.file_system.get_stream_url 7 1).1,
        ))
unfolding new_factory
get_stream_url-get_stream_url_example =
    get_stream_url-get_stream_url media 100 200 0 new_factory 1 "http://host/1" (omega arith) refl
      (λ e. cc) 300 400 7
