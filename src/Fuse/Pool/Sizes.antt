-- ===== src/Fuse/Pool/Sizes.antt =====
-- Theorems about the pools of filesystem/server/provider/fuse/pool/main.go: sizes and owners.
use fuse_video_streamer.Base.{
  ℕ, zero, suc, ◌+◌, ◌<◌, ◌≡◌, ◌≢◌, refl, sym, ap, inl, inr, ◌⊎◌, Option, none, some, List, [], ◌∷◌,
  arith, get_elem?, Option-cases,
}
use fuse_video_streamer.Base.Int.{ℤ}
use fuse_video_streamer.Fuse.Pool.{
  small_video_buffer, medium_video_buffer, large_video_buffer, max_buffer_size, Buffer, BufferPool,
  without, get, make_buffer, get_buffer, put_buffer,
}

-- All buffers have the length, and addresses below `next`, and no two have one address.
abbrev pub Sized : ℕ → List Buffer → Type 0
Sized len [] = Unit {0}
Sized len (b ∷ bs) = (b.len ≡ len) × Sized len bs

-- The address is none of the list's.
abbrev pub Apart : ℕ → List Buffer → Type 0
Apart a [] = Unit {0}
Apart a (b ∷ bs) = (b.address ≢ a) × Apart a bs

abbrev pub Distinct : ℕ → List Buffer → Type 0
Distinct next [] = Unit {0}
Distinct next (b ∷ bs) = (b.address < next) × Apart b.address bs × Distinct next bs

pub record IsSized (p : BufferPool) : Type 0 where
  pub small : Sized small_video_buffer p.small_pool
  pub medium : Sized medium_video_buffer p.medium_pool
  pub large : Sized large_video_buffer p.large_pool
  pub max : Sized max_buffer_size p.max_pool
  pub distinct : Distinct p.next p.small_pool

-- A buffer that is out of the pool: made by it, and not in it.
abbrev pub IsOut : BufferPool → Buffer → Type 0
IsOut p b = (b.address < p.next) × Apart b.address p.small_pool

Sized-get :
    (len i : ℕ) (bs : List Buffer) (b : Buffer)
    → Sized len bs
    → get_elem? bs i ≡ some b
    → (b.len ≡ len) × Sized len (without bs i)
Sized-get len i [] b s e = cc
Sized-get len zero (x ∷ bs) b s e = ground arith
Sized-get len (suc i) (x ∷ bs) b s e = ground (arith, Sized-get len i bs b s.1 e)

Apart-without : (a i : ℕ) (bs : List Buffer) → Apart a bs → Apart a (without bs i)
Apart-without a i [] h = tt
Apart-without a zero (x ∷ bs) h = h.1
Apart-without a (suc i) (x ∷ bs) h = (h.0, Apart-without a i bs h.1)

Apart-get :
    (a i : ℕ) (bs : List Buffer) (b : Buffer) → Apart a bs → get_elem? bs i ≡ some b → b.address ≢ a
Apart-get a i [] b h e = cc
Apart-get a zero (x ∷ bs) b h e = ground (arith, h.0)
Apart-get a (suc i) (x ∷ bs) b h e = Apart-get a i bs b h.1 e

Distinct-get :
    (next i : ℕ) (bs : List Buffer) (b : Buffer)
    → Distinct next bs
    → get_elem? bs i ≡ some b
    → (b.address < next) × Apart b.address (without bs i) × Distinct next (without bs i)
Distinct-get next i [] b d e = cc
Distinct-get next zero (x ∷ bs) b d e = ground arith
Distinct-get next (suc i) (x ∷ bs) b d e =
    let (below, apart, rest) = Distinct-get next i bs b d.2 e in
    (
      below,
      (λ same. Apart-get x.address i bs b d.1 e (sym same), apart),
      (d.0, Apart-without x.address i bs d.1, rest),
    )

Apart-next : (next : ℕ) (bs : List Buffer) → Distinct next bs → Apart next bs
Apart-next next [] d = tt
Apart-next next (b ∷ bs) d = ((λ e. omega (arith, e)), Apart-next next bs d.2)

Distinct-suc : (next : ℕ) (bs : List Buffer) → Distinct next bs → Distinct (next + 1) bs
Distinct-suc next [] d = tt
Distinct-suc next (b ∷ bs) d = (omega arith, d.1, Distinct-suc next bs d.2)

Sized-choice :
    (p : BufferPool) (choice : Option ℕ)
    → (get p.small_pool choice ≡ none)
      ⊎ ((i : ℕ) × (b : Buffer) × (get_elem? p.small_pool i ≡ some b)
          × (get p.small_pool choice ≡ some (b, without p.small_pool i)))
Sized-choice p none = inl refl
Sized-choice p (some i) = elim (Option-cases (get_elem? p.small_pool i)) [
  | inl e ↦ inl (rw (e, get))
  | inr (b, e) ↦ inr (i, b, e, rw (e, get))
]

-- What `GetBuffer` does, whatever the file's size: it takes from the small pool, or makes a buffer.
get_buffer_small :
    (choice : Option ℕ) (p : BufferPool) (size : ℤ)
    → get_buffer choice p size ≡ elim (get p.small_pool choice) [
      | some (b, rest) ↦ (b, record p { small_pool = rest })
      | none ↦ (make_buffer small_video_buffer p.next, record p { next = p.next + 1 })
    ]
unfolding get_buffer
get_buffer_small choice p size = refl

-- What a caller is promised of the buffer `b` that leaves `p` as `q`.
abbrev pub Hands : BufferPool → Buffer × BufferPool → Type 0
Hands p (b, q) =
    (b.len ≡ small_video_buffer)
    × IsSized q
    × IsOut q b
    × ((other : Buffer) → IsOut p other → (other.address ≢ b.address) × IsOut q other)

-- From a sound pool, whatever the file's size and the runtime's choice, GetBuffer hands out a
-- buffer of the small size that nobody else holds, and the pool stays sound.
pub get_buffer-Hands :
    (choice : Option ℕ) (p : BufferPool) (size : ℤ) → IsSized p → Hands p (get_buffer choice p size)
get_buffer-Hands choice p size v = rw get_buffer_small (elim (Sized-choice p choice) [
  | inl e ↦ rw e (
    refl,
    record {
      small = v.small;
      medium = v.medium;
      large = v.large;
      max = v.max;
      distinct = Distinct-suc p.next p.small_pool v.distinct;
    },
    (omega arith, Apart-next p.next p.small_pool v.distinct),
    λ other o. ((λ same. omega (arith, same, o.0)), (omega (arith, o.0), o.1)),
  )
  | inr (i, b, found, e) ↦
      let (len, sized) = Sized-get small_video_buffer i p.small_pool b v.small found in
      let (below, apart, distinct) = Distinct-get p.next i p.small_pool b v.distinct found in
      rw e (
        len,
        record {
          small = sized;
          medium = v.medium;
          large = v.large;
          max = v.max;
          distinct = distinct;
        },
        (below, apart),
        λ other o. (
          (λ same. Apart-get other.address i p.small_pool b o.1 found (sym same)),
          (o.0, Apart-without other.address i p.small_pool o.1),
        ),
      )
])

pub put_buffer_small :
    (p : BufferPool) (b : Buffer)
    → b.len ≡ small_video_buffer
    → put_buffer p (some b) ≡ record p { small_pool = b ∷ p.small_pool }
unfolding put_buffer
put_buffer_small p b len = ground arith

-- PutBuffer of a buffer of the small size that is out keeps a sound pool sound, and a GetBuffer
-- that takes what was put last gives it back and restores the pool.
pub put_buffer-get_buffer :
    (p : BufferPool) (b : Buffer) (size : ℤ)
    → IsSized p
    → IsOut p b
    → b.len ≡ small_video_buffer
    → IsSized (put_buffer p (some b)) × (get_buffer (some 0) (put_buffer p (some b)) size ≡ (b, p))
unfolding get_buffer
put_buffer-get_buffer p b size v o len = (
  rw (put_buffer_small p b len) (record {
    small = (len, v.small);
    medium = v.medium;
    large = v.large;
    max = v.max;
    distinct = (o.0, o.1, v.distinct);
  }),
  ap (λ q. get_buffer (some 0) q size) (put_buffer_small p b len),
)
