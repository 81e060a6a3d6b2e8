-- ===== src/Quota/Gating.antt =====
-- `Quota::gating_weekly` of src/quota.rs.
use mathlib.Core.Option
use corrall.Prelude.{String, ◌≡◌, true, inl, inr, some, Bool-cases, arith, eq_iff, ◌==◌}
use corrall.Prelude.Float.{Float}
use corrall.Quota.{Bucket, Quota, bucket, gating_weekly}
use corrall.Model.{bucket_7d}

module _ {F : Type 0} where
  bucket_shared :
      (q : Quota F) (key : String) (b : Bucket F)
      → key ≡ bucket_7d
      → bucket q key ≡ some b
      → q.unified7d ≡ b
  unfolding bucket
  bucket_shared q key b k e = let e' : bucket q bucket_7d ≡ some b = rw k at e in ground arith

module _ {F : Type 0} ⦃fl : Float F⦄ where
  -- Where both readings are known and are numbers, the gate is at least the shared weekly reading
  -- and at least the family's own. `f64::max` of two numbers is below neither.
  gating_weekly_bounds :
      ((a b : F)
        → fl.ge a a ≡ true
        → fl.ge b b ≡ true
        → (fl.ge (fl.fmax a b) a ≡ true) × (fl.ge (fl.fmax a b) b ≡ true))
      → (q : Quota F) (key : String) (b : Bucket F) (own shared : F) → bucket q key ≡ some b
      → b.utilization ≡ some own
      → q.unified7d.utilization ≡ some shared
      → fl.ge own own ≡ true
      → fl.ge shared shared ≡ true
      → (g : F) × (gating_weekly q key ≡ some g) × (fl.ge g own ≡ true) × (fl.ge g shared ≡ true)
  unfolding gating_weekly Option.bind
  gating_weekly_bounds law q key b own shared eb eo es on sn =
      elim (Bool-cases (key == bucket_7d)) [
        | inl weekly ↦ (
          shared,
          ground arith,
          ground (arith, bucket_shared q key b ((eq_iff key bucket_7d).0 weekly) eb),
          sn,
        )
        | inr scoped ↦
            (fl.fmax own shared, ground arith, (law own shared on sn).0, (law own shared on sn).1)
      ]
