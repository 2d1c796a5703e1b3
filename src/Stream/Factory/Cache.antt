-- ===== src/Stream/Factory/Cache.antt =====
-- Theorems about the address that the factory of stream/factory/main.go keeps.
use Prim.Native.String.{String}
use text.Mathlib.TextEquality.{eq_iff}
use fuse_video_streamer.Base.{ℕ, ◌+◌, ◌≤◌, ◌<◌, ◌≡◌, ◌≢◌, false, none, arith, ltb}
use fuse_video_streamer.Go.{ok}
use fuse_video_streamer.Client.{Client}
use fuse_video_streamer.Stream.Factory.{Factory, fifteen_minutes, store_url, get_stream_url}

module _ {R : Type 0} (client : Client R) where
  fetch :
      (now later : ℕ) (r : R) (f : Factory) (identifier : ℕ)
      → f.cached_item.expiration ≤ now
      → get_stream_url client now later r f identifier ≡ (
        store_url client f later (client.file_system.get_stream_url r identifier).0,
        (client.file_system.get_stream_url r identifier).1,
      )
  unfolding get_stream_url
  fetch now later r f identifier old =
      let late : ltb now f.cached_item.expiration ≡ false = ground arith in ground arith

  reuse :
      (now later : ℕ) (r : R) (f : Factory) (identifier : ℕ)
      → f.cached_item.url ≢ ""
      → now < f.cached_item.expiration
      → get_stream_url client now later r f identifier ≡ ((ok f.cached_item.url, f), r)
  unfolding get_stream_url
  reuse now later r f identifier ne early = ground (arith, eq_iff f.cached_item.url "")

  -- A non-empty address that the remote file system gave at the time t, when the kept one was
  -- expired, serves every call of the next fifteen minutes with no remote call; from then on the
  -- remote file system is asked again.
  pub get_stream_url-get_stream_url :
      (now t : ℕ) (r : R) (f : Factory) (identifier : ℕ) (url : String)
      → f.cached_item.expiration ≤ now
      → (client.file_system.get_stream_url r identifier).0 ≡ (url, none)
      → url ≢ ""
      → (now' t' : ℕ) (r' : R)
      → let f' = (get_stream_url client now t r f identifier).0.1 in
        (now' < t + fifteen_minutes
          → get_stream_url client now' t' r' f' identifier ≡ ((ok url, f'), r'))
        × (t + fifteen_minutes ≤ now'
            → get_stream_url client now' t' r' f' identifier ≡ (
              store_url client f' t' (client.file_system.get_stream_url r' identifier).0,
              (client.file_system.get_stream_url r' identifier).1,
            ))
  unfolding store_url
  get_stream_url-get_stream_url now t r f identifier url old given ne now' t' r' =
      rw (fetch now t r f identifier old, given)
        (let f' : Factory = record f {
          cached_item = record { url = url; expiration = t + fifteen_minutes };
        } in
          (reuse now' t' r' f' identifier ne, fetch now' t' r' f' identifier))
