-- ===== src/Base/Int.antt =====
-- Go's int64: a signed integer over the native numbers, its wrap-around and its operators.
use Prim.Native.Nat.{ℕ, suc, ◌+◌, ◌-◌, ◌/◌, ◌%◌, ◌^◌, ◌≤◌}
use mathlib.Core.Path.{◌≡◌}
use mathlib.Core.Bool.{Bool}
use native.Mathlib.Omega.{arith}
use fuse_video_streamer.Base.Tests.{ltb, leb, if◌then◌else◌}

-- `negsuc n` is -(n + 1).
pub data ℤ : Type 0 where
  pos : ℕ → ℤ
  negsuc : ℕ → ℤ

abbrev pub pos_part : ℤ → ℕ
pos_part (pos n) = n
pos_part (negsuc n) = 0

abbrev pub neg_part : ℤ → ℕ
neg_part (pos n) = 0
neg_part (negsuc n) = suc n

-- a - b, as an integer.
abbrev pub sub_ℕ : ℕ → ℕ → ℤ
sub_ℕ a b = if leb b a then pos (a - b) else negsuc (b - a - 1)

abbrev pub u64_mod : ℕ
u64_mod = 2 ^ 64

abbrev pub i64_max : ℕ
i64_max = 2 ^ 63 - 1

-- The 64 bits of an integer, and the int64 that 64 bits stand for.
unfoldable pub bits64 : ℤ → ℕ
bits64 (pos n) = n % u64_mod
bits64 (negsuc n) = u64_mod - 1 - n % u64_mod

unfoldable pub signed64 : ℕ → ℤ
signed64 b = if leb b i64_max then pos b else negsuc (u64_mod - 1 - b)

-- What an int64 variable holds after a computation whose exact result is `z`.
unfoldable pub int64 : ℤ → ℤ
unfolding bits64 signed64
int64 z = signed64 (bits64 z)

infixl 65 ◌+ℤ◌ ◌-ℤ◌
infix 50 ◌≤ℤ◌
-- `a + b` and `a - b` on int64.
unfoldable pub ◌+ℤ◌ : ℤ → ℤ → ℤ
unfolding int64
a +ℤ b = int64 (sub_ℕ (pos_part a + pos_part b) (neg_part a + neg_part b))

unfoldable pub ◌-ℤ◌ : ℤ → ℤ → ℤ
unfolding int64
a -ℤ b = int64 (sub_ℕ (pos_part a + neg_part b) (neg_part a + pos_part b))

abbrev pub ◌≤ℤ◌ : ℤ → ℤ → Type 0
a ≤ℤ b = pos_part a + neg_part b ≤ pos_part b + neg_part a

abbrev pub ltb_ℤ : ℤ → ℤ → Bool
ltb_ℤ a b = ltb (pos_part a + neg_part b) (pos_part b + neg_part a)

-- The builtins `min` and `max`.
abbrev pub min_ℤ : ℤ → ℤ → ℤ
min_ℤ a b = if ltb_ℤ b a then b else a

abbrev pub max_ℤ : ℤ → ℤ → ℤ
max_ℤ a b = if ltb_ℤ a b then b else a

-- `a / 2`, which truncates towards zero.
abbrev pub half_ℤ : ℤ → ℤ
half_ℤ (pos n) = pos (n / 2)
half_ℤ (negsuc n) = sub_ℕ 0 (suc n / 2)

-- The value fits an int64.
abbrev pub IsInt64 : ℤ → Type 0
IsInt64 z = (pos_part z ≤ i64_max) × (neg_part z ≤ i64_max + 1)

-- A sum or difference of two non-negative values that does not leave the range is exact.
pub +ℤ-pos : (a b : ℕ) → a + b ≤ i64_max → pos a +ℤ pos b ≡ pos (a + b)
unfolding ◌+ℤ◌
+ℤ-pos a b h = ground arith

pub -ℤ-pos : (a b : ℕ) → a ≤ i64_max → b ≤ i64_max → pos a -ℤ pos b ≡ sub_ℕ a b
unfolding ◌-ℤ◌
-ℤ-pos a b ha hb = ground arith

pub int64_self : (z : ℤ) → IsInt64 z → int64 z ≡ z
unfolding int64
int64_self (pos n) h = ground arith
int64_self (negsuc n) h = ground arith
