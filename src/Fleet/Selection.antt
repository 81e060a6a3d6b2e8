-- ===== src/Fleet/Selection.antt =====
-- src/manager.rs: the whole of `Fleet::select`, and what it answers when nothing can serve.
pub mod Pinned
pub mod Scope
pub mod Exhausted
pub mod Complete
use mathlib.Core.Option
use corrall.Prelude.{
  ℕ, ◌+◌, ◌*◌, String, Bool, true, false, not, ◌&&◌, ◌||◌, List, [], ◌∷◌, map, Option, none, some,
  any, if◌then◌else◌, ◌==◌,
}
use corrall.Prelude.Int.{ℤ, pos, pos_part, ltb_ℤ, min_ℤ, sub_i64, div_i64}
use corrall.Prelude.Float.{Float}
use corrall.Quota.{soonest_reset, or_else}
use corrall.Fleet.{Account, Fleet, SelectRequest, is_provider}
use corrall.Fleet.Upstream.{Platform}
use corrall.Fleet.Eligibility.{Reason, unavailable_reason, unavailable_key}
use corrall.Fleet.Cursor.{clear_expired_all}
use corrall.Fleet.Select.{
  Selection, chosen, exhausted, Outcome, or_next, select_pin, select_route_pin, select_session,
  select_current, select_best, select_probe,
}

-- The reasons that a reset can lift.
abbrev pub lifts_key : String → Bool
lifts_key key =
    key == "throttled"
    || (key == "capped" || (key == "advisor-capped" || (key == "quota" || key == "advisor-quota")))

-- The clamp of the wait to 5..3600 seconds, as a `u64`.
abbrev pub clamp_secs : ℤ → ℕ
clamp_secs s = if ltb_ℤ s (pos 5) then 5 else if ltb_ℤ (pos 3600) s then 3600 else pos_part s

module _ {F : Type 0} where
  unfoldable pub held_back : Option (Reason F) → Bool
  held_back none = false
  held_back (some r) = lifts_key (unavailable_key r)

-- The soonest recovery that is still to come.
abbrev pub sooner : ℤ → Option ℤ → Option ℤ → Option ℤ
sooner now none best = best
sooner now (some r) best =
    if ltb_ℤ now r
    then elim best [ none ↦ some r | some s ↦ if ltb_ℤ r s then some r else some s ]
    else best

abbrev pub wait_secs : ℤ → Option ℤ → ℕ
wait_secs now none = 60
wait_secs now (some s) = clamp_secs (div_i64 (sub_i64 s now) 1000)

module _ {F : Type 0} ⦃fl : Float F⦄ ⦃pf : Platform⦄ where
  abbrev pub in_scope : SelectRequest → Account F → Bool
  in_scope req a = elim req.provider [ none ↦ true | some p ↦ is_provider a.provider p ]

  -- When the account at hand may be back.
  abbrev pub recovery : Account F → Option ℤ
  recovery a = or_else a.rate_limited_until (soonest_reset pf.parse_iso_ms a.quota)

  -- The accounts of the wanted provider that are held back.
  unfoldable pub bound_by_quota : Fleet F → SelectRequest → ℤ → Account F → Bool
  bound_by_quota f req now a =
      in_scope req a && held_back (unavailable_reason f a req.model req.advisor_model now)

  unfoldable pub soonest_recovery :
      Fleet F → SelectRequest → ℤ → Option ℤ → List (Account F) → Option ℤ
  soonest_recovery f req now best [] = best
  soonest_recovery f req now best (a ∷ v) =
      soonest_recovery f req now
        (if bound_by_quota f req now a then sooner now (recovery a) best else best) v

  unfoldable pub exhausted_parts :
      Fleet F → SelectRequest → ℤ → List (Account F) → List (String × Option (Reason F))
  exhausted_parts f req now [] = []
  exhausted_parts f req now (a ∷ v) =
      let rest = exhausted_parts f req now v in
      if in_scope req a
      then (a.name, unavailable_reason f a req.model req.advisor_model now) ∷ rest
      else rest

  -- When to retry, and why nothing can serve.
  unfoldable pub exhausted_info :
      Fleet F → SelectRequest → ℤ → Option ℕ × List (String × Option (Reason F))
  unfolding exhausted_parts
  exhausted_info f req now = (
    if any (bound_by_quota f req now) f.accounts
        then some (wait_secs now (soonest_recovery f req now none f.accounts))
        else none,
    exhausted_parts f req now f.accounts,
  )

  -- The answer when no stage selects.
  abbrev pub or_exhausted : SelectRequest → ℤ → Outcome F → Fleet F × Selection F
  or_exhausted req now (f, some s) = (f, s)
  or_exhausted req now (f, none) =
      let (retry, parts) = exhausted_info f req now in (f, exhausted retry parts)

  unfoldable pub select_unpinned : SelectRequest → ℤ → Fleet F → Outcome F
  select_unpinned req now f = or_next (select_route_pin req now f) (λ f₁.
      or_next (select_session req now f₁) (λ f₂.
        or_next (select_current req now f₂)
          (λ f₃. or_next (select_best req now f₃) (select_probe req now))))

  -- `Fleet::select`
  unfoldable pub select : SelectRequest → ℤ → Fleet F → Fleet F × Selection F
  select req now f =
      let fresh = clear_expired_all now f in
      elim req.pin [
        | some pin ↦ (fresh, select_pin fresh req now pin)
        | none ↦ or_exhausted req now (select_unpinned req now fresh)
      ]
