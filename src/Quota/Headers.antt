-- ===== src/Quota/Headers.antt =====
-- `Quota::apply_headers` of src/quota.rs.
use mathlib.Core.Option
use corrall.Prelude.{String, ◌≡◌, refl, Option, none, some, [], arith}
use corrall.Prelude.Int.{ℤ}
use corrall.Prelude.Float.{Float}
use corrall.Prelude.Maps.{Map, lookup}
use corrall.Quota.{
  Bucket, Quota, or_else, stamp, read_bucket, float_header, secs_header, int_header, apply_headers,
}

or_else_idem {ℓ} : {A : Type ℓ} (o p : Option A) → or_else o (or_else o p) ≡ or_else o p
or_else_idem none p = refl
or_else_idem (some a) p = refl

stamp_idem {ℓ} :
    {A : Type ℓ} (o : Option A) (now : ℤ) (p : Option ℤ)
    → stamp o now (stamp o now p) ≡ stamp o now p
stamp_idem none now p = refl
stamp_idem (some a) now p = refl

module _ {F : Type 0} ⦃fl : Float F⦄ where
  read_bucket_idem :
      (u : Option F) (r : Option ℤ) (now : ℤ) (b : Bucket F)
      → read_bucket u r now (read_bucket u r now b) ≡ read_bucket u r now b
  unfolding read_bucket
  read_bucket_idem u r now b = ground arith

  -- Reading one response twice at the same time is reading it once.
  apply_headers_idem :
      (h : Map String) (now : ℤ) (q : Quota F)
      → apply_headers h now (apply_headers h now q) ≡ apply_headers h now q
  unfolding apply_headers
  apply_headers_idem h now q = simp (read_bucket_idem, or_else_idem, stamp_idem)

  -- A response with no rate-limit header changes nothing.
  pub apply_headers_none : (now : ℤ) (q : Quota F) → apply_headers [] now q ≡ q
  unfolding apply_headers read_bucket float_header secs_header int_header lookup Option.bind
  apply_headers_none now q = refl
