-- ===== src/Prelude/Float.antt =====
-- `f64` as an interface: the operations that the program calls. NaN is a value `x` with
-- `ge x x ≡ false`, so nothing here assumes that the order is total.
use Prim.Native.Nat.{ℕ}
use mathlib.Core.Bool.{Bool}
use mathlib.Core.Option.{Option}
use corrall.Prelude.Tests.{if◌then◌else◌}
use corrall.Prelude.Int.{ℤ}
use corrall.Prelude.Bytes.{Bytes}

pub record Float (F : Type 0) : Type 0 where
  -- `a >= b` and `a < b`
  pub ge : F → F → Bool
  pub lt : F → F → Bool
  -- `f64::max` and `f64::min`, which pass over NaN
  pub fmax : F → F → F
  pub fmin : F → F → F
  pub add : F → F → F
  pub sub : F → F → F
  pub mul : F → F → F
  pub div : F → F → F
  -- `n as f64`
  pub of_int : ℤ → F
  -- `x as i64`
  pub to_int : F → ℤ
  -- the literal m * 10^-k
  pub decimal : ℕ → ℕ → F
  pub is_finite : F → Bool
  pub infinity : F
  -- `str::parse::<f64>`
  pub parse : Bytes → Option F

module _ {F : Type 0} ⦃fl : Float F⦄ where
  -- `f64::clamp`
  unfoldable pub clamp : F → F → F → F
  clamp v lo hi = if fl.lt v lo then lo else if fl.lt hi v then hi else v

  abbrev pub zero_point : F
  zero_point = fl.decimal 0 0

  abbrev pub one_point : F
  one_point = fl.decimal 1 0
