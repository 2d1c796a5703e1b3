-- ===== src/Stream/Shared/Laws.antt =====
-- Theorems about the pools and the map of stream/pool.go and stream/map.go.
use mathlib.Core.Path.{subst}
use fuse_video_streamer.Base.{
  ℕ, ◌≡◌, ◌≢◌, refl, inl, inr, true, false, none, some, List, [], ◌∷◌, arith, ◌==◌, Bool-cases,
}
use fuse_video_streamer.Base.Int.{ℤ}
use fuse_video_streamer.Go.{ok}
use fuse_video_streamer.Stream.External.{Ring}
use fuse_video_streamer.Stream.Shared.{
  BufferPool, BufferPoolMap, same_size, find_pool, new_buffer_pool, get, load, delete, store,
}

module _ {S : Type 0} where
  load-delete :
      (m : List (ℕ × S)) (key other : ℕ)
      → (load (delete m key) key ≡ none) × (key ≢ other → load (delete m key) other ≡ load m other)
  unfolding load delete
  load-delete [] key other = (refl, λ ne. refl)
  load-delete ((k, s) ∷ rest) key other =
      let (gone, kept) = load-delete rest key other in
      elim (Bool-cases (k == key)) [
        | inl e ↦ (
          rw (delete, e) gone,
          λ ne.
              let not_it : (k == other) ≡ false = ground arith in
              rw (delete, e, load, not_it) (kept ne),
        )
        | inr e ↦ elim (Bool-cases (k == other)) [
          | inl q ↦ (rw (delete, e, load, e) gone, λ ne. rw (delete, e, load, q) refl)
          | inr q ↦ (rw (delete, e, load, e) gone, λ ne. rw (delete, e, load, q) (kept ne))
        ]
      ]

  -- Load gives what Store put under the key, and nothing behind Delete; the other keys are left.
  pub load-store :
      (m : List (ℕ × S)) (key other : ℕ) (s : S)
      → (load (store m key s) key ≡ some s)
        × (load (delete m key) key ≡ none)
        × (key ≢ other
            → (load (store m key s) other ≡ load m other)
              × (load (delete m key) other ≡ load m other))
  unfolding load store delete
  load-store m key other s =
      let (gone, kept) = load-delete m key other in
      let same : (key == key) ≡ true = ground arith in
      (
        rw same refl,
        gone,
        λ ne. (let not_it : (key == other) ≡ false = ground arith in rw not_it (kept ne), kept ne),
      )

same_size_refl : (a : ℤ) → same_size a a ≡ true
same_size_refl a = ground arith

module _ {B : Type 0} (ring : Ring B) where
  -- Where the map has no pool of ring buffers for a size, one NewBufferPool for it makes one; a
  -- second NewBufferPool for the size, with another position, leaves it, and its fresh ring
  -- buffers start at the first position.
  pub second_pool_keeps_first_start :
      (m : BufferPoolMap B) (size start other : ℤ)
      → find_pool m size ≡ none
      → let m' = new_buffer_pool m size start in
        (new_buffer_pool m' size other ≡ m')
        × ((p : BufferPool B)
            → find_pool m' size ≡ some p
            → get ring none p ≡ ok (ring.new_ring size start, p))
  unfolding new_buffer_pool get
  second_pool_keeps_first_start m size start other e =
      rw (e, same_size_refl size)
        (
          refl,
          λ p q.
              let made : record { pool = some []; size = size; start_position = start } ≡ p = cc in
              subst (λ (x : BufferPool B). get ring none x ≡ ok (ring.new_ring size start, x)) made
                refl,
        )
