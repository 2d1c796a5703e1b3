-- ===== src/Stream/Transfer/Buffers.antt =====
-- The pool of byte buffers in stream/transfer/main.go, which all transfers share: what `copyData` takes out at
-- its begin, and what its deferred call puts back.
use mathlib.Core.Path.{subst}
use fuse_video_streamer.Base.{
  ℕ, ◌+◌, ◌≤◌, ◌≡◌, Option, none, some, List, [], ◌∷◌, arith, length, get_elem?, get_elem?-exists,
  Option-cases, inl, inr,
}
use fuse_video_streamer.Go.{Outcome, ok, err, panics, bad_type_assertion}

-- What stands in an `interface{}` of the pool: a `[]byte`, or a `*[]byte`. A buffer is known by a number.
pub data Item : Type 0 where
  slice pointer : ℕ → Item

-- The items that were put, the last first, and the number of the next buffer.
pub record Pool : Type 0 where
  pub items : List Item
  pub next : ℕ

unfoldable pub empty_pool : Pool
empty_pool = record { items = []; next = 0 }

-- The list without the element at an index.
abbrev pub without : {A : Type 0} → List A → ℕ → List A
without [] i = []
without (x ∷ xs) ℕ.zero = xs
without (x ∷ xs) (ℕ.suc i) = x ∷ without xs i

-- `bufferPool.Get()`: sync.Pool gives any item that was put, by the runtime's choice, or a new one.
unfoldable pub get : Option ℕ → Pool → Item × Pool
get none p = (slice p.next, record p { next = p.next + 1 })
get (some i) p = elim (get_elem? p.items i) [
  | none ↦ (slice p.next, record p { next = p.next + 1 })
  | some item ↦ (item, record p { items = without p.items i })
]

-- `.([]byte)`
abbrev pub as_slice : Item → Outcome ℕ
as_slice (slice b) = ok b
as_slice (pointer b) = panics bad_type_assertion

-- `buf := bufferPool.Get().([]byte)`
unfoldable pub begin_copy : Option ℕ → Pool → Outcome ℕ × Pool
begin_copy choice p = let (item, p') = get choice p in (as_slice item, p')

-- `bufferPool.Put(&buf)`, deferred.
unfoldable pub end_copy : ℕ → Pool → Pool
end_copy b p = record p { items = pointer b ∷ p.items }

-- A `copyData` begins, or one with this buffer ends; or the runtime drops what is in the pool.
pub data Event : Type 0 where
  begins : Option ℕ → Event
  ends : ℕ → Event
  collects : Event

abbrev pub after_begin : Outcome ℕ × Pool → Option Pool
after_begin (ok b, p) = some p
after_begin (err e, p) = none
after_begin (panics x, p) = none

-- Behind these events; none once an assertion panicked, which ends the program.
unfoldable pub history : List Event → Pool → Option Pool
history [] p = some p
history (begins choice ∷ es) p = elim (after_begin (begin_copy choice p)) [
  | none ↦ none
  | some p' ↦ history es p'
]
history (ends b ∷ es) p = history es (end_copy b p)
history (collects ∷ es) p = history es (record p { items = [] })

-- All items are pointers.
abbrev pub AllPointers : List Item → Type 0
AllPointers [] = Unit {0}
AllPointers (slice b ∷ xs) = ⊥
AllPointers (pointer b ∷ xs) = AllPointers xs

get_elem?-pointer :
    (xs : List Item) (i : ℕ) (x : Item)
    → AllPointers xs
    → get_elem? xs i ≡ some x
    → as_slice x ≡ panics bad_type_assertion
get_elem?-pointer [] i x all e = cc
get_elem?-pointer (slice b ∷ xs) i x all e = absurd all
get_elem?-pointer (pointer b ∷ xs) ℕ.zero x all e = ground arith
get_elem?-pointer (pointer b ∷ xs) (ℕ.suc i) x all e = get_elem?-pointer xs i x all e

-- Where the pool holds pointers only, a begin that does not panic got a new buffer.
begin_copy-AllPointers :
    (choice : Option ℕ) (p p' : Pool)
    → AllPointers p.items
    → after_begin (begin_copy choice p) ≡ some p'
    → AllPointers p'.items
unfolding begin_copy get
begin_copy-AllPointers none p p' all e =
    let same : record p { next = p.next + 1 } ≡ p' = cc in
    subst (λ (q : Pool). AllPointers q.items) same all
begin_copy-AllPointers (some i) p p' all e = elim (Option-cases (get_elem? p.items i)) [
  | inl q ↦
      let same : record p { next = p.next + 1 } ≡ p' = ground (arith, e, q) in
      subst (λ (q : Pool). AllPointers q.items) same all
  | inr (x, q) ↦ absurd (ground (arith, e, q, get_elem?-pointer p.items i x all q))
]

history-AllPointers :
    (es : List Event) (p p' : Pool)
    → AllPointers p.items
    → history es p ≡ some p'
    → AllPointers p'.items
unfolding history end_copy
history-AllPointers [] p p' all e =
    let same : p ≡ p' = cc in subst (λ (q : Pool). AllPointers q.items) same all
history-AllPointers (begins choice ∷ es) p p' all e =
    elim (Option-cases (after_begin (begin_copy choice p))) [
      | inl q ↦ absurd (ground (arith, e, q))
      | inr (p1, q) ↦
          history-AllPointers es p1 p' (begin_copy-AllPointers choice p p1 all q)
            (rw (history, q) at e)
    ]
history-AllPointers (ends b ∷ es) p p' all e = history-AllPointers es _ p' all e
history-AllPointers (collects ∷ es) p p' all e = history-AllPointers es _ p' tt e

-- Whenever a copyData has ended, in whatever order copyDatas began and ended before and whatever
-- the runtime dropped from the pool, a copyData that gets any of the pool's items, of which there
-- is one at least, panics at its type assertion.
pub second_copy_panics :
    (es : List Event) (p : Pool) (b i : ℕ)
    → history es empty_pool ≡ some p
    → i ≤ length p.items
    → (begin_copy (some i) (end_copy b p)).0 ≡ panics bad_type_assertion
unfolding begin_copy end_copy get empty_pool
second_copy_panics es p b i e bound =
    let all = history-AllPointers es _ p tt e in
    let (x, q) = get_elem?-exists (pointer b ∷ p.items) i (omega (arith, bound)) in
    rw (get, q) (get_elem?-pointer (pointer b ∷ p.items) i x all q)
