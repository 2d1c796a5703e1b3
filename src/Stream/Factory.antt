-- ===== src/Stream/Factory.antt =====
-- stream/factory/main.go: makes streams for one node, and keeps the address that it got for them.
pub mod Cache
use Prim.Native.String.{String}
use text.Mathlib.Text.{◌==◌ as str_eq}
use fuse_video_streamer.Base.{
  ℕ, ◌+◌, ◌*◌, Bool, true, false, not, ◌&&◌, Option, none, some, if◌then◌else◌, ltb,
}
use fuse_video_streamer.Base.Int.{ℤ, pos, signed64, bits64}
use fuse_video_streamer.Go.{
  GoError, failure, wrapped, Error, Outcome, ok, err, factory_is_closed, failed_to_get_video_url,
}
use fuse_video_streamer.Client.{Client}
use fuse_video_streamer.Stream.External.{Http, Ring}
use fuse_video_streamer.Stream.Core.{Stream, new}

-- Times are nanoseconds since the zero time.
pub record CacheItem : Type 0 where
  pub url : String
  pub expiration : ℕ

pub record Factory : Type 0 where
  pub cached_item : CacheItem
  pub closed : Bool

unfoldable pub new_factory : Factory
new_factory = record { cached_item = record { url = ""; expiration = 0 }; closed = false }

abbrev pub fifteen_minutes : ℕ
fifteen_minutes = 15 * 60 * 1_000_000_000

module _ {R : Type 0} (client : Client R) where
  -- The answer of the remote file system: an address is kept, an error is not.
  unfoldable pub store_url : Factory → ℕ → String × Error → Outcome String × Factory
  store_url f now (url, some e) = (err (wrapped failed_to_get_video_url e), f)
  store_url f now (url, none) =
      (ok url, record f { cached_item = record { url = url; expiration = now + fifteen_minutes } })

  -- The clock is read twice: for the test, and behind the call.
  unfoldable pub get_stream_url : ℕ → ℕ → R → Factory → ℕ → (Outcome String × Factory) × R
  unfolding store_url
  get_stream_url now later r f identifier =
      if not (str_eq f.cached_item.url "") && ltb now f.cached_item.expiration
      then ((ok f.cached_item.url, f), r)
      else let (answer, r') = client.file_system.get_stream_url r identifier in
        (store_url f later answer, r')

  -- `NewStream`, at the network and with the identifier that `stream.New` prints from the clock.
  unfoldable pub make_stream :
      {W B : Type 0} → Http W → Ring B → String → W → ℕ → Outcome String → Outcome (Stream W B)
  make_stream http ring now network size (err e) = err e
  make_stream http ring now network size (Outcome.panics p) = Outcome.panics p
  make_stream http ring now network size (ok url) =
      ok (new http ring now network url (signed64 size))

  unfoldable pub new_stream :
      {W B : Type 0}
      → Http W
      → Ring B
      → String
      → W
      → ℕ
      → ℕ
      → R
      → Factory
      → ℕ
      → ℕ
      → (Outcome (Stream W B) × Factory) × R
  unfolding make_stream
  new_stream http ring id network now later r f node_identifier size =
      if f.closed
      then ((err (failure factory_is_closed), f), r)
      else let ((url, f'), r') = get_stream_url now later r f node_identifier in
        ((make_stream http ring id network size url, f'), r')

unfoldable pub close_factory : Factory → Factory
close_factory f = if f.closed then f else record f { closed = true }
