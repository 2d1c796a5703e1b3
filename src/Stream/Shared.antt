-- ===== src/Stream/Shared.antt =====
-- stream/pool.go and stream/map.go: ring buffers to use again, by their size, and streams by a key. No
-- other file uses them. The runtime of Go chooses what a pool gives.
pub mod Laws
use fuse_video_streamer.Base.{
  ℕ, ◌==◌, ◌&&◌, Bool, true, false, Option, none, some, List, [], ◌∷◌, ◌++◌, get_elem?,
  if◌then◌else◌,
}
use fuse_video_streamer.Base.Int.{ℤ, pos, pos_part, neg_part}
use fuse_video_streamer.Go.{Outcome, ok, panics, nil_dereference}
use fuse_video_streamer.Stream.External.{Ring}

-- `pool` holds the ring buffers that were put back, or is none where the pointer is nil; its `New`
-- makes ring buffers of this size that start at this position.
pub record BufferPool (B : Type 0) : Type 0 where
  pub pool : Option (List B)
  pub size : ℤ
  pub start_position : ℤ

-- The map `bufferPoolMap`; a pool is known by its key.
abbrev pub BufferPoolMap : Type 0 → Type 0
BufferPoolMap B = List (ℤ × BufferPool B)

abbrev pub same_size : ℤ → ℤ → Bool
same_size a b = (pos_part a == pos_part b) && (neg_part a == neg_part b)

module _ {B : Type 0} where
  abbrev pub find_pool : BufferPoolMap B → ℤ → Option (BufferPool B)
  find_pool [] size = none
  find_pool ((other, p) ∷ rest) size = if same_size other size then some p else find_pool rest size

  abbrev pub new_by : BufferPoolMap B → ℤ → ℤ → Option (BufferPool B) → BufferPoolMap B
  new_by m size start (some p) = m
  new_by m size start none =
      (size, record { pool = some []; size = size; start_position = start }) ∷ m

  -- `NewBufferPool(size, startPosition)`
  unfoldable pub new_buffer_pool : BufferPoolMap B → ℤ → ℤ → BufferPoolMap B
  new_buffer_pool m size start = new_by m size start (find_pool m size)

  abbrev pub without : List B → ℕ → List B
  without [] i = []
  without (b ∷ bs) ℕ.zero = bs
  without (b ∷ bs) (ℕ.suc i) = b ∷ without bs i

  abbrev pub with_pool : List B → BufferPool B → BufferPool B
  with_pool bs p = record p { pool = some bs }

module _ {B : Type 0} (ring : Ring B) where
  -- `sync.Pool.Get`, with the runtime's choice of a ring buffer, or of none.
  abbrev pub take_from : BufferPool B → List B → Option ℕ → B × List B
  take_from p bs none = (ring.new_ring p.size p.start_position, bs)
  take_from p bs (some i) = elim (get_elem? bs i) [
    | none ↦ (ring.new_ring p.size p.start_position, bs)
    | some b ↦ (b, without bs i)
  ]

  -- `Get()`, which panics once the pool was closed.
  unfoldable pub get : Option ℕ → BufferPool B → Outcome (B × BufferPool B)
  get choice p = elim p.pool [
    | none ↦ panics nil_dereference
    | some bs ↦ let (b, rest) = take_from p bs choice in ok (b, with_pool rest p)
  ]

  -- `Put(buffer)`
  unfoldable pub put : BufferPool B → B → Outcome (BufferPool B)
  put p b = elim p.pool [
    | none ↦ panics nil_dereference
    | some bs ↦ ok (with_pool (ring.reset_to_position b (pos 0) ∷ bs) p)
  ]

-- `Close()` of a pool, which stays in the map.
unfoldable pub close_pool : {B : Type 0} → BufferPool B → BufferPool B
close_pool p = record p { pool = none }

-- The type Map, from uint32 to streams: `Load`, `Store` and `Delete` of sync.Map.
abbrev pub Map : Type 0 → Type 0
Map S = List (ℕ × S)

module _ {S : Type 0} where
  unfoldable pub load : Map S → ℕ → Option S
  load [] key = none
  load ((other, s) ∷ rest) key = if other == key then some s else load rest key

  unfoldable pub delete : Map S → ℕ → Map S
  delete [] key = []
  delete ((other, s) ∷ rest) key =
      let rest' = delete rest key in if other == key then rest' else (other, s) ∷ rest'

  unfoldable pub store : Map S → ℕ → S → Map S
  unfolding delete
  store m key s = (key, s) ∷ delete m key

  -- `Range(f)`: until `f` says false, with what `f` changes.
  unfoldable pub range : {X : Type 0} → (X → ℕ → S → Bool × X) → Map S → X → X
  range f [] x = x
  range f ((key, s) ∷ rest) x =
      let (goes_on, x') = f x key s in let last = range f rest x' in if goes_on then last else x'
