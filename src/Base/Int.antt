-- ===== src/Base/Int.antt =====
-- Signed integers over the native numbers, and Rust's `i64`: an integer with wrap-around written out.
use Prim.Native.Nat.{ℕ, suc, ◌+◌, ◌-◌, ◌*◌, ◌/◌, ◌%◌, ◌^◌, ◌≤◌, ◌<◌}
use mathlib.Core.Path.{◌≡◌}
use mathlib.Core.Bool.{Bool}
use native.Mathlib.Omega.{arith}
use sechat_client.Base.{ltb, leb, if◌then◌else◌}

-- `negsuc n` is -(n + 1).
pub data ℤ : Type 0 where
  pos : ℕ → ℤ
  negsuc : ℕ → ℤ

abbrev pub pos_part : ℤ → ℕ
pos_part (pos n) = n
pos_part (negsuc n) = 0

abbrev pub neg_part : ℤ → ℕ
neg_part (pos n) = 0
neg_part (negsuc n) = suc n

-- a - b, as an integer.
abbrev pub sub_ℕ : ℕ → ℕ → ℤ
sub_ℕ a b = if leb b a then pos (a - b) else negsuc (b - a - 1)

infixl 65 ◌+ℤ◌ ◌-ℤ◌
infix 50 ◌≤ℤ◌ ◌<ℤ◌
unfoldable pub ◌+ℤ◌ : ℤ → ℤ → ℤ
a +ℤ b = sub_ℕ (pos_part a + pos_part b) (neg_part a + neg_part b)

unfoldable pub ◌-ℤ◌ : ℤ → ℤ → ℤ
a -ℤ b = sub_ℕ (pos_part a + neg_part b) (neg_part a + pos_part b)

abbrev pub ◌≤ℤ◌ : ℤ → ℤ → Type 0
a ≤ℤ b = pos_part a + neg_part b ≤ pos_part b + neg_part a

abbrev pub ◌<ℤ◌ : ℤ → ℤ → Type 0
a <ℤ b = pos_part a + neg_part b < pos_part b + neg_part a

abbrev pub leb_ℤ : ℤ → ℤ → Bool
leb_ℤ a b = leb (pos_part a + neg_part b) (pos_part b + neg_part a)

abbrev pub ltb_ℤ : ℤ → ℤ → Bool
ltb_ℤ a b = ltb (pos_part a + neg_part b) (pos_part b + neg_part a)

-- The range of `i64`.
abbrev pub IsI64 : ℤ → Type 0
IsI64 a = (pos_part a < 2 ^ 63) × (neg_part a ≤ 2 ^ 63)

abbrev pub i64_min : ℤ
i64_min = negsuc (2 ^ 63 - 1)

-- `x as u64`: the two's complement pattern.
unfoldable pub to_u64 : ℤ → ℕ
to_u64 (pos n) = n % 2 ^ 64
to_u64 (negsuc n) = 2 ^ 64 - 1 - n % 2 ^ 64

-- `w as i64`.
unfoldable pub of_u64 : ℕ → ℤ
of_u64 w = if ltb w (2 ^ 63) then pos w else negsuc (2 ^ 64 - 1 - w)

-- `a + b`, `a - b` and `.abs()` on `i64` in a release build, which wraps.
unfoldable pub add_i64 : ℤ → ℤ → ℤ
unfolding ◌+ℤ◌ to_u64 of_u64
add_i64 a b = of_u64 (to_u64 (a +ℤ b))

unfoldable pub sub_i64 : ℤ → ℤ → ℤ
unfolding ◌-ℤ◌ to_u64 of_u64
sub_i64 a b = of_u64 (to_u64 (a -ℤ b))

unfoldable pub abs_i64 : ℤ → ℤ
unfolding sub_i64
abs_i64 a = if ltb_ℤ a (pos 0) then sub_i64 (pos 0) a else a

-- Division by a positive number, towards zero as in Rust.
unfoldable pub div_i64 : ℤ → ℕ → ℤ
unfolding ◌-ℤ◌
div_i64 (pos n) d = pos (n / d)
div_i64 (negsuc n) d = pos 0 -ℤ pos (suc n / d)

unfoldable pub mul_i64 : ℤ → ℕ → ℤ
unfolding to_u64 of_u64 ◌-ℤ◌
mul_i64 (pos n) d = of_u64 (to_u64 (pos (n * d)))
mul_i64 (negsuc n) d = of_u64 (to_u64 (pos 0 -ℤ pos (suc n * d)))

pub of_u64-to_u64 : (a : ℤ) → IsI64 a → of_u64 (to_u64 a) ≡ a
unfolding of_u64 to_u64
of_u64-to_u64 a h = ground arith

pub to_u64-lt : (a : ℤ) → to_u64 a < 2 ^ 64
unfolding to_u64
to_u64-lt (pos n) = omega arith
to_u64-lt (negsuc n) = omega arith

-- The absolute distance of two integers.
abbrev pub dist : ℤ → ℤ → ℕ
dist a b =
    (pos_part a + neg_part b - (pos_part b + neg_part a))
    + (pos_part b + neg_part a - (pos_part a + neg_part b))

-- In a release build `(a - b).abs() <= w` tests the distance, but for distances of 2 ^ 63 or more.
pub abs-sub_i64_near :
    (a b : ℤ) (w : ℕ)
    → IsI64 a
    → IsI64 b
    → dist a b < 2 ^ 63
    → leb_ℤ (abs_i64 (sub_i64 a b)) (pos w) ≡ leb (dist a b) w
unfolding abs_i64
abs-sub_i64_near a b w ha hb h = ground arith
