-- ===== src/Fleet/Responses/Readings.antt =====
-- src/manager.rs: the readings of an account after a response.
use mathlib.Core.Option
use corrall.Prelude.{String, ◌≡◌, refl, Option, none, some, ap, ◌∙◌, Bool-cases, inl, inr, arith}
use corrall.Prelude.Int.{ℤ}
use corrall.Prelude.Float.{Float}
use corrall.Prelude.Maps.{Map, lookup}
use corrall.Quota.Expiry.{IsFresh, clear_expired-IsFresh}
use corrall.Fleet.{Account, Fleet, account, account-account_mut}
use corrall.Fleet.Upstream.{Platform}
use corrall.Fleet.Eligibility.{threshold_for}
use corrall.Fleet.Responses.{
  update_quota, read_plan, read_response, note_response, has_learned, sweep_quota,
}

module _ {F : Type 0} ⦃fl : Float F⦄ ⦃pf : Platform⦄ where
  read_plan-id : (o : Option String) (a : Account F) → (read_plan o a).id ≡ a.id
  read_plan-id none a = refl
  read_plan-id (some p) a = refl

  read_response-id : (h : Map String) (now : ℤ) (a : Account F) → (read_response h now a).id ≡ a.id
  read_response-id h now a = ground (arith, read_plan-id (lookup "x-codex-plan-type" h))

  note_response-id :
      (h : Map String) (stamp : String) (now : ℤ) (a : Account F)
      → (note_response h stamp now a).id ≡ a.id
  note_response-id h stamp now a = elim (Bool-cases (has_learned (read_response h now a))) [
    | inl met ↦ rw met (read_response-id h now a)
    | inr unmet ↦ rw unmet (read_response-id h now a)
  ]

  -- After a response the account has no reading past its reset, no spent family reading that is
  -- stale and no status older than an hour, by the time and the thresholds of the fleet.
  pub update_quota-IsFresh :
      (id stamp : String) (h : Map String) (now : ℤ) (f : Fleet F) (a : Account F)
      → account f id ≡ some a
      → (b : Account F) × (account (update_quota id h stamp now f).fleet id ≡ some b)
        × IsFresh now pf.family_stale_ms (threshold_for f) b.quota
  unfolding update_quota
  update_quota-IsFresh id stamp h now f a found =
      let noted = λ (c : Account F). note_response h stamp now c in
      (
        sweep_quota now f (noted a),
        account-account_mut id (λ c. sweep_quota now f (noted c)) f (note_response-id h stamp now)
            ∙ ap (Option.map (λ c. sweep_quota now f (noted c))) found,
        clear_expired-IsFresh now pf.family_stale_ms (threshold_for f) (noted a).quota,
      )
