-- ===== src/Quota/Usage.antt =====
-- `Quota::apply_usage` of src/quota.rs.
use corrall.Prelude.{◌≡◌, true, false, inl, inr, Option, some, Bool-cases, Option-cases, arith}
use corrall.Prelude.Int.{ℤ}
use corrall.Prelude.Float.{Float}
use corrall.Quota.{
  Bucket, Quota, UsagePayload, set_bucket, set_listed, apply_usage, same_window, reads_lower,
}

-- The four readings that a payload can set.
pub data Reading : Type 0 where
  five_hour seven_day fable sonnet : Reading

module _ {F : Type 0} where
  abbrev pub held : Reading → Quota F → Bucket F
  held Reading.five_hour q = q.unified5h
  held Reading.seven_day q = q.unified7d
  held Reading.fable q = q.unified7d_fable
  held Reading.sonnet q = q.unified7d_sonnet

  abbrev pub offered : Reading → UsagePayload F → Option (Bucket F)
  offered Reading.five_hour p = p.five_hour
  offered Reading.seven_day p = p.seven_day
  offered Reading.fable p = p.seven_day_fable
  offered Reading.sonnet p = p.seven_day_sonnet

module _ {F : Type 0} ⦃fl : Float F⦄ where
  -- A bucket that the payload offers is set by the closure, listed or not.
  apply_usage-held :
      (p : UsagePayload F) (now : ℤ) (q : Quota F) (r : Reading) (b : Bucket F)
      → offered r p ≡ some b
      → held r (apply_usage p now q) ≡ set_bucket now (held r q) (some b)
  unfolding apply_usage set_listed
  apply_usage-held p now q Reading.five_hour b e = rw e
  apply_usage-held p now q Reading.seven_day b e = rw e
  apply_usage-held p now q Reading.fable b e = rw e (ground arith)
  apply_usage-held p now q Reading.sonnet b e = rw e (ground arith)

  set_bucket-not_lowered :
      ((x : F) → fl.lt x x ≡ false)
      → (now : ℤ) (dst b : Bucket F) (d : F) → same_window dst b ≡ true
      → dst.utilization ≡ some d
      → (v : F) × ((set_bucket now dst (some b)).utilization ≡ some v) × (fl.lt v d ≡ false)
  unfolding set_bucket reads_lower
  set_bucket-not_lowered irr now dst b d w u = elim (Option-cases b.utilization) [
    | inl e ↦ (d, ground arith, irr d)
    | inr (s, e) ↦ elim (Bool-cases (fl.lt s d)) [
      | inl low ↦ (d, ground arith, irr d)
      | inr up ↦ (s, ground arith, up)
    ]
  ]

  -- The reading of five hours, of seven days, of Fable or of Sonnet: where a payload of the usage
  -- endpoint offers it for the window that the quota holds, the utilization is not taken down, if no
  -- float is below itself. Nothing is stated of the other scoped windows.
  pub apply_usage-not_lowered :
      ((x : F) → fl.lt x x ≡ false)
      → (p : UsagePayload F) (now : ℤ) (q : Quota F) (r : Reading) (b : Bucket F) (d : F)
      → offered r p ≡ some b
      → same_window (held r q) b ≡ true
      → (held r q).utilization ≡ some d
      → (v : F) × ((held r (apply_usage p now q)).utilization ≡ some v) × (fl.lt v d ≡ false)
  apply_usage-not_lowered irr p now q r b d e w u =
      rw (apply_usage-held p now q r b e) (set_bucket-not_lowered irr now (held r q) b d w u)

  -- A payload that starts another window is taken as it is, lower or not.
  apply_usage-new_window :
      (p : UsagePayload F) (now : ℤ) (q : Quota F) (r : Reading) (b : Bucket F) (s : F)
      → offered r p ≡ some b
      → same_window (held r q) b ≡ false
      → b.utilization ≡ some s
      → held r (apply_usage p now q)
        ≡ record { utilization = some s; reset_at = b.reset_at; seen_at = some now }
  unfolding set_bucket
  apply_usage-new_window p now q r b s e w u = rw (apply_usage-held p now q r b e) (ground arith)
