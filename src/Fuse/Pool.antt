-- ===== src/Fuse/Pool.antt =====
-- filesystem/server/provider/fuse/pool/main.go: reusable byte buffers in four pools. A buffer is an
-- address and a length. What a `sync.Pool` hands out is its own choice: any buffer that was put, or a
-- new one.
pub mod Sizes
use fuse_video_streamer.Base.{
  ℕ, ◌+◌, ◌*◌, Bool, Option, none, some, List, [], ◌∷◌, get_elem?, if◌then◌else◌, ◌==◌,
}
use fuse_video_streamer.Base.Int.{ℤ, pos}

abbrev pub small_video_buffer : ℕ
small_video_buffer = 64 * 1024 * 1024

abbrev pub medium_video_buffer : ℕ
medium_video_buffer = 256 * 1024 * 1024

abbrev pub large_video_buffer : ℕ
large_video_buffer = 512 * 1024 * 1024

abbrev pub max_buffer_size : ℕ
max_buffer_size = 1024 * 1024 * 1024

pub record Buffer : Type 0 where
  pub address : ℕ
  pub len : ℕ

-- `next` is the address of the next buffer that is made.
pub record BufferPool : Type 0 where
  pub small_pool : List Buffer
  pub medium_pool : List Buffer
  pub large_pool : List Buffer
  pub max_pool : List Buffer
  pub next : ℕ

-- What stands behind the first `return` never runs.
unfoldable pub calculate_buffer_size : ℤ → ℕ
calculate_buffer_size file_size = small_video_buffer

-- The list without the element at the index.
abbrev pub without : List Buffer → ℕ → List Buffer
without [] i = []
without (b ∷ bs) ℕ.zero = bs
without (b ∷ bs) (ℕ.suc i) = b ∷ without bs i

-- `sync.Pool.Get`, with the runtime's choice of an element, or of none.
abbrev pub get : List Buffer → Option ℕ → Option (Buffer × List Buffer)
get bs none = none
get bs (some i) = elim (get_elem? bs i) [ none ↦ none | some b ↦ some (b, without bs i) ]

-- The `New` of the four pools.
abbrev pub make_buffer : ℕ → ℕ → Buffer
make_buffer len next = record { address = next; len = len }

-- `bufferSize` is one of the four sizes: the `default` is the largest.
unfoldable pub get_buffer : Option ℕ → BufferPool → ℤ → Buffer × BufferPool
unfolding calculate_buffer_size
get_buffer choice p file_size =
    let size = calculate_buffer_size file_size in
    let fresh = record p { next = p.next + 1 } in
    if size == small_video_buffer
    then elim (get p.small_pool choice) [
      | some (b, rest) ↦ (b, record p { small_pool = rest })
      | none ↦ (make_buffer small_video_buffer p.next, fresh)
    ]
    else if size == medium_video_buffer
    then elim (get p.medium_pool choice) [
      | some (b, rest) ↦ (b, record p { medium_pool = rest })
      | none ↦ (make_buffer medium_video_buffer p.next, fresh)
    ]
    else if size == large_video_buffer
    then elim (get p.large_pool choice) [
      | some (b, rest) ↦ (b, record p { large_pool = rest })
      | none ↦ (make_buffer large_video_buffer p.next, fresh)
    ]
    else elim (get p.max_pool choice) [
      | some (b, rest) ↦ (b, record p { max_pool = rest })
      | none ↦ (make_buffer max_buffer_size p.next, fresh)
    ]

-- `none` is the nil slice.
unfoldable pub put_buffer : BufferPool → Option Buffer → BufferPool
put_buffer p none = p
put_buffer p (some b) =
    if b.len == small_video_buffer
    then record p { small_pool = b ∷ p.small_pool }
    else if b.len == medium_video_buffer
    then record p { medium_pool = b ∷ p.medium_pool }
    else if b.len == large_video_buffer
    then record p { large_pool = b ∷ p.large_pool }
    else if b.len == max_buffer_size
    then record p { max_pool = b ∷ p.max_pool }
    else p
