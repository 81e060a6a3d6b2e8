-- ===== src/Prelude/Int.antt =====
-- `i64` values as integers over the native numbers: orders and differences read as sums of parts.
use Prim.Native.Nat.{ℕ, suc, ◌+◌, ◌-◌, ◌*◌, ◌/◌, ◌%◌, ◌^◌, ◌≤◌, compare, Ordering}
use mathlib.Core.Path.{◌≡◌}
use mathlib.Core.Bool.{Bool, false}
use native.Mathlib.Omega.{arith}
use corrall.Prelude.Tests.{ltb, leb, if◌then◌else◌}

-- `negsuc n` is -(n + 1).
pub data ℤ : Type 0 where
  pos : ℕ → ℤ
  negsuc : ℕ → ℤ

abbrev pub pos_part : ℤ → ℕ
pos_part (pos n) = n
pos_part (negsuc n) = 0

abbrev pub neg_part : ℤ → ℕ
neg_part (pos n) = 0
neg_part (negsuc n) = suc n

-- a - b, as an integer.
abbrev pub sub_ℕ : ℕ → ℕ → ℤ
sub_ℕ a b = if leb b a then pos (a - b) else negsuc (b - a - 1)

infixl 65 ◌+ℤ◌ ◌-ℤ◌
infix 50 ◌≤ℤ◌ ◌<ℤ◌
unfoldable pub ◌+ℤ◌ : ℤ → ℤ → ℤ
a +ℤ b = sub_ℕ (pos_part a + pos_part b) (neg_part a + neg_part b)

unfoldable pub ◌-ℤ◌ : ℤ → ℤ → ℤ
a -ℤ b = sub_ℕ (pos_part a + neg_part b) (neg_part a + pos_part b)

abbrev pub ◌≤ℤ◌ : ℤ → ℤ → Type 0
a ≤ℤ b = pos_part a + neg_part b ≤ pos_part b + neg_part a

abbrev pub ◌<ℤ◌ : ℤ → ℤ → Type 0
a <ℤ b = suc (pos_part a + neg_part b) ≤ pos_part b + neg_part a

abbrev pub compare_ℤ : ℤ → ℤ → Ordering
compare_ℤ a b = compare (pos_part a + neg_part b) (pos_part b + neg_part a)

abbrev pub ltb_ℤ : ℤ → ℤ → Bool
ltb_ℤ a b = ltb (pos_part a + neg_part b) (pos_part b + neg_part a)

abbrev pub leb_ℤ : ℤ → ℤ → Bool
leb_ℤ a b = leb (pos_part a + neg_part b) (pos_part b + neg_part a)

-- `now - seen > d`, on the exact difference.
abbrev pub older : ℤ → ℤ → ℕ → Bool
older now seen d = ltb (pos_part seen + neg_part now + d) (pos_part now + neg_part seen)

-- The same, where the limit may be negative.
abbrev pub older_than : ℤ → ℤ → ℤ → Bool
older_than now seen d =
    ltb (pos_part seen + neg_part now + pos_part d) (pos_part now + neg_part seen + neg_part d)

-- `now - seen < d`, on the exact difference.
abbrev pub younger : ℤ → ℤ → ℕ → Bool
younger now seen d = ltb (pos_part now + neg_part seen) (pos_part seen + neg_part now + d)

-- `(a - b).abs() <= d`, on the exact difference.
abbrev pub within : ℤ → ℤ → ℕ → Bool
within a b d =
    if leb (pos_part a + neg_part b) (pos_part b + neg_part a + d)
    then leb (pos_part b + neg_part a) (pos_part a + neg_part b + d)
    else false

abbrev pub min_ℤ : ℤ → ℤ → ℤ
min_ℤ a b = if leb_ℤ a b then a else b

abbrev pub i64_max : ℤ
i64_max = pos (2 ^ 63 - 1)

-- What the release build keeps of an exact result: its value modulo 2^64, in two's complement.
unfoldable pub wrap_i64 : ℤ → ℤ
wrap_i64 (pos n) = let r = n % 2 ^ 64 in if ltb r (2 ^ 63) then pos r else negsuc (2 ^ 64 - r - 1)
wrap_i64 (negsuc n) =
    let r = n % 2 ^ 64 in if ltb r (2 ^ 63) then negsuc r else pos (2 ^ 64 - r - 1)

-- An `i64` product by a positive constant.
unfoldable pub scale_i64 : ℤ → ℕ → ℤ
unfolding wrap_i64
scale_i64 a k = wrap_i64 (sub_ℕ (pos_part a * k) (neg_part a * k))

-- An `i64` sum.
unfoldable pub add_i64 : ℤ → ℤ → ℤ
unfolding wrap_i64 ◌+ℤ◌
add_i64 a b = wrap_i64 (a +ℤ b)

-- An `i64` difference.
unfoldable pub sub_i64 : ℤ → ℤ → ℤ
unfolding wrap_i64 ◌-ℤ◌
sub_i64 a b = wrap_i64 (a -ℤ b)

-- `a / k` for a positive constant rounds towards zero.
unfoldable pub div_i64 : ℤ → ℕ → ℤ
div_i64 a k = sub_ℕ (pos_part a / k) (neg_part a / k)

pub eq_of_parts : (a b : ℤ) → pos_part a + neg_part b ≡ pos_part b + neg_part a → a ≡ b
eq_of_parts a b h = ground arith

-- In range, wrapping changes nothing.
pub wrap_i64_small : (n : ℕ) → suc n ≤ 2 ^ 63 → wrap_i64 (pos n) ≡ pos n
unfolding wrap_i64
wrap_i64_small n h = ground arith
