-- ===== src/Fleet/Health.antt =====
-- src/manager.rs: what the answers of the upstream do to an account: holds, errors, logins.
pub mod Holds
use mathlib.Core.Option
use corrall.Prelude.{
  ℕ, ◌+◌, ◌-◌, ◌*◌, ◌%◌, ◌^◌, String, Bool, true, false, not, ◌&&◌, ◌||◌, List, [], ◌∷◌, keep, map,
  Option, none, some, ltb, leb, length, if◌then◌else◌, ◌==◌,
}
use corrall.Prelude.Int.{ℤ, pos, ltb_ℤ, leb_ℤ, younger, add_i64, sub_i64, scale_i64, wrap_i64}
use corrall.Prelude.Bytes.{Bytes}
use corrall.Prelude.Float.{Float}
use corrall.Prelude.Maps.{Map, lookup, insert, insert_sorted, remove, has_key}
use corrall.Prelude.Json.{Json, get, as_i64}
use corrall.Model.{weekly_bucket_for}
use corrall.Config.{is_text}
use corrall.Quota.{UsagePayload, apply_usage}
use corrall.Session.{record_tokens, touch, begin_request, end_request}
use corrall.Fleet.{
  Account, Fleet, Status, Provider, Usage, ProbeAccount, account, account_mut, is_throttled,
  is_error, is_oauth, is_provider,
}
use corrall.Fleet.Upstream.{Platform}
use corrall.Fleet.Eligibility.{Reason, is_none, near_quota, unavailable_reason}
use corrall.Fleet.Cursor.{begin_ramp}
use corrall.Fleet.Tallies.{one_more}

abbrev pub entitlement_cooldown_ms : ℕ
entitlement_cooldown_ms = 5 * 60 * 1000

abbrev pub fleet_429_accounts : ℕ
fleet_429_accounts = 2

abbrev pub fleet_429_window_ms : ℕ
fleet_429_window_ms = 30 * 1000

abbrev pub lift_throttle : Status → Status
lift_throttle s = if is_throttled s then Status.active else s

-- A pause by a quota that is still running.
abbrev pub is_held : ℤ → Bool → Option ℤ → Bool
is_held now quota_hold none = false
is_held now quota_hold (some t) = quota_hold && ltb_ℤ now t

abbrev pub same_token : Option String → Option String → Bool
same_token none t = false
same_token (some s) t = is_text s t

abbrev pub count_failure : Usage → Usage
count_failure u = record u { failed_requests = one_more u.failed_requests }

module _ {F : Type 0} where
  -- `until` for a pause of `secs`; the product and the sum are those of `i64`.
  unfoldable pub hold : String → ℕ → Bool → ℤ → Fleet F → Fleet F
  hold id secs quota now f =
      account_mut id
        (λ a. record a {
          status = Status.throttled;
          rate_limited_until = some (add_i64 now (scale_i64 (wrap_i64 (pos secs)) 1000));
          quota_hold = quota;
          throttled_at = some now;
        })
        f

  abbrev pub mark_rate_limited : String → ℕ → ℤ → Fleet F → Fleet F
  mark_rate_limited id secs now f = hold id secs false now f

  abbrev pub mark_quota_exhausted : String → ℕ → ℤ → Fleet F → Fleet F
  mark_quota_exhausted id secs now f = hold id secs true now f

  abbrev pub had_429 : ℤ → Account F → Bool
  had_429 now a = elim a.headerless_429_at [
    | none ↦ false
    | some t ↦ younger now t fleet_429_window_ms
  ]

  -- The fleet, and whether the limit is upstream-wide.
  unfoldable pub note_headerless_429 : String → ℤ → Fleet F → Fleet F × Bool
  note_headerless_429 id now f =
      let g = account_mut id (λ a. record a { headerless_429_at = some now }) f in
      (g, leb fleet_429_accounts (length (keep (had_429 now) g.accounts)))

  unfoldable pub clear_rate_limited : String → Fleet F → Fleet F
  clear_rate_limited id f =
      account_mut id
        (λ a. record a {
          status = lift_throttle a.status;
          rate_limited_until = none;
          quota_hold = false;
        })
        f

  unfoldable pub mark_entitlement_denied : String → ℤ → Fleet F → Fleet F
  mark_entitlement_denied id now f =
      account_mut id
        (λ a. record a {
          entitlement_denied_until = some (add_i64 now (pos entitlement_cooldown_ms));
        })
        f

  unfoldable pub is_entitlement_denied : String → ℤ → Fleet F → Bool
  is_entitlement_denied id now f =
      elim (Option.bind (account f id) (λ a. a.entitlement_denied_until)) [
        | none ↦ false
        | some u ↦ ltb_ℤ now u
      ]

  unfoldable pub mark_error : String → String → Fleet F → Fleet F
  mark_error id msg f =
      account_mut id
        (λ a. record a {
          status = Status.error;
          error_message = some msg;
          usage = count_failure a.usage;
        })
        f

  unfoldable pub record_failure : String → Fleet F → Fleet F
  record_failure id f = account_mut id (λ a. record a { usage = count_failure a.usage }) f

  unfoldable pub clear_error : String → Fleet F → Fleet F
  clear_error id f =
      account_mut id
        (λ a. record a {
          status = Status.active;
          error_message = none;
          dead_refresh_token = none;
          rate_limited_until = none;
          quota_hold = false;
        })
        f

  unfoldable pub set_route_pin : String → Option String → Fleet F → Fleet F
  set_route_pin route none f = record f { route_pins = remove route f.route_pins }
  set_route_pin route (some id) f = record f { route_pins = insert route id f.route_pins }

  -- A rejected refresh token took the account out of rotation.
  unfoldable pub needs_login : String → Fleet F → Option String
  needs_login id f = elim (account f id) [
    | none ↦ none
    | some a ↦
        if is_error a.status && same_token a.dead_refresh_token a.refresh_token
        then some (Option.get_or a.error_message "needs re-login")
        else none
  ]

  unfoldable pub needs_profile : String → Fleet F → Bool
  needs_profile id f = elim (account f id) [
    | none ↦ false
    | some a ↦ is_none a.rate_limit_tier && is_none a.seat_tier
  ]

module _ {F : Type 0} ⦃fl : Float F⦄ where
  -- `Manager::apply_usage`: a fresh reading may lift the hold of a quota.
  unfoldable pub apply_usage_report : String → UsagePayload F → ℤ → Fleet F → Fleet F
  apply_usage_report id u now f =
      let g =
        account_mut id
          (λ a. record a { quota = apply_usage u now a.quota; last_probe_at = some now }) f in
      elim (account g id) [
        | none ↦ g
        | some a ↦
            if is_held now a.quota_hold a.rate_limited_until && is_none (near_quota g a none)
            then clear_rate_limited id g
            else g
      ]

module _ {F : Type 0} ⦃fl : Float F⦄ ⦃pf : Platform⦄ where
  -- The fleet, and the name of the account with why it cannot serve now.
  unfoldable pub switch_to : String → ℤ → Fleet F → Fleet F × Option (String × Option (Reason F))
  switch_to id now f = elim (account f id) [
    | none ↦ (f, none)
    | some a ↦ (
      begin_ramp id now (record f { current = some id }),
      some (a.name, unavailable_reason f a none none now),
    )
  ]
