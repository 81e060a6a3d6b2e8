-- ===== src/Prelude/Bytes.antt =====
-- Text that the program walks: the UTF-8 bytes of a `&str`, or the code points of a `String`.
use Prim.Native.Char.{code}
use Prim.Native.String.{String}
use Prim.Native.Nat.{ℕ, zero, suc, ◌+◌, ◌-◌, ◌*◌, ◌^◌, ◌≤◌}
use mathlib.Core.Path.{◌≡◌}
use mathlib.Core.Logic.{◌↔◌}
use mathlib.Core.Bool.{Bool, true, false, ◌&&◌, ◌||◌}
use mathlib.Core.List.{List, [], ◌∷◌, map, reverse}
use mathlib.Core.Option.{Option, none, some}
use native.Mathlib.Omega.{arith}
use corrall.Prelude.Tests.{leb, eqb, if◌then◌else◌}
use corrall.Prelude.Int.{ℤ, pos, negsuc}

abbrev pub Bytes : Type 0
Bytes = List ℕ

-- The code points of a text: its bytes, if it is ASCII.
abbrev pub codes : String → Bytes
codes String.[] = []
codes (String.◌∷◌ c s) = code c ∷ codes s

unfoldable pub bytes_eq : Bytes → Bytes → Bool
bytes_eq [] [] = true
bytes_eq (a ∷ s) (b ∷ t) = eqb a b && bytes_eq s t
bytes_eq _ _ = false

-- `u8::to_ascii_lowercase`
unfoldable pub lower : ℕ → ℕ
lower c = if leb b'A' c && leb c b'Z' then c + 32 else c

-- `str::to_ascii_lowercase`
unfoldable pub lowercase : Bytes → Bytes
lowercase = map lower

unfoldable pub starts_with : Bytes → Bytes → Bool
starts_with s [] = true
starts_with [] (p ∷ ps) = false
starts_with (c ∷ s) (p ∷ ps) = eqb c p && starts_with s ps

-- `str::contains`
unfoldable pub contains : Bytes → Bytes → Bool
unfolding starts_with
contains [] needle = starts_with [] needle
contains (c ∷ s) needle = starts_with (c ∷ s) needle || contains s needle

unfoldable pub is_digit : ℕ → Bool
is_digit c = leb b'0' c && leb c b'9'

digits_value : ℕ → Bytes → Option ℕ
digits_value acc [] = some acc
digits_value acc (c ∷ s) =
    let rest = digits_value (acc * 10 + (c - b'0')) s in if is_digit c then rest else none

-- The value of a nonempty run of decimal digits.
unfoldable pub parse_digits : Bytes → Option ℕ
unfolding digits_value is_digit
parse_digits [] = none
parse_digits (c ∷ s) = digits_value 0 (c ∷ s)

bounded : ℕ → Option ℕ → Option ℕ
bounded top none = none
bounded top (some n) = if leb n top then some n else none

-- `str::parse::<usize>` on a 64-bit target: an optional `+`, then digits, in range.
unfoldable pub parse_usize : Bytes → Option ℕ
unfolding parse_digits bounded
parse_usize [] = none
parse_usize (c ∷ s) =
    if eqb c b'+'
    then bounded (2 ^ 64 - 1) (parse_digits s)
    else bounded (2 ^ 64 - 1) (parse_digits (c ∷ s))

as_positive : Option ℕ → Option ℤ
as_positive none = none
as_positive (some n) = if leb n (2 ^ 63 - 1) then some (pos n) else none

as_negative : Option ℕ → Option ℤ
as_negative none = none
as_negative (some zero) = some (pos 0)
as_negative (some (suc n)) = if leb (suc n) (2 ^ 63) then some (negsuc n) else none

-- `str::parse::<i64>`: an optional sign, then digits, in range.
unfoldable pub parse_i64 : Bytes → Option ℤ
unfolding parse_digits as_positive as_negative
parse_i64 [] = none
parse_i64 (c ∷ s) =
    if eqb c b'+'
    then as_positive (parse_digits s)
    else if eqb c b'-'
    then as_negative (parse_digits s)
    else as_positive (parse_digits (c ∷ s))

-- `char::is_whitespace`
unfoldable pub is_whitespace : ℕ → Bool
is_whitespace c =
    (leb 9 c && leb c 13)
    || eqb c 32
    || eqb c 0x85
    || eqb c 0xa0
    || eqb c 0x1680
    || (leb 0x2000 c && leb c 0x200a)
    || eqb c 0x2028
    || eqb c 0x2029
    || eqb c 0x202f
    || eqb c 0x205f
    || eqb c 0x3000

unfoldable pub trim_start : Bytes → Bytes
unfolding is_whitespace
trim_start [] = []
trim_start (c ∷ s) = let rest = trim_start s in if is_whitespace c then rest else c ∷ s

-- `str::trim`
unfoldable pub trim : Bytes → Bytes
unfolding trim_start
trim s = reverse (trim_start (reverse (trim_start s)))

-- `str::split_once` at a character.
unfoldable pub split_once : ℕ → Bytes → Option (Bytes × Bytes)
split_once d [] = none
split_once d (c ∷ s) =
    let rest = split_once d s in
    if eqb c d then some ([], s) else elim rest [ none ↦ none | some (a, b) ↦ some (c ∷ a, b) ]

pub bytes_eq_iff : (s t : Bytes) → (bytes_eq s t ≡ true) ↔ (s ≡ t)
unfolding bytes_eq
bytes_eq_iff [] [] = ground arith
bytes_eq_iff [] (b ∷ t) = ground arith
bytes_eq_iff (a ∷ s) [] = ground arith
bytes_eq_iff (a ∷ s) (b ∷ t) = ground (arith, bytes_eq_iff s t)

as_positive-le : (o : Option ℕ) (n : ℕ) → as_positive o ≡ some (pos n) → n ≤ 2 ^ 63 - 1
unfolding as_positive
as_positive-le none n h = absurd (cc h)
as_positive-le (some m) n h = ground (arith, h)

as_negative-le : (o : Option ℕ) (n : ℕ) → as_negative o ≡ some (pos n) → n ≤ 2 ^ 63 - 1
unfolding as_negative
as_negative-le none n h = absurd (cc h)
as_negative-le (some zero) n h = ground (arith, h)
as_negative-le (some (suc m)) n h = ground (arith, h)

-- What is parsed is in range.
pub parse_i64-le : (s : Bytes) (n : ℕ) → parse_i64 s ≡ some (pos n) → n ≤ 2 ^ 63 - 1
unfolding parse_i64
parse_i64-le [] n h = absurd (cc h)
parse_i64-le (c ∷ s) n h = ground (
  arith,
  h,
  as_positive-le (parse_digits s) n,
  as_negative-le (parse_digits s) n,
  as_positive-le (parse_digits (c ∷ s)) n,
)
