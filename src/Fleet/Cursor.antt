-- ===== src/Fleet/Cursor.antt =====
-- src/manager.rs: the small steps of the selection: the cursor, ramps, baselines, expired readings,
-- and the account that a pin names.
use mathlib.Core.Option
use corrall.Prelude.{
  String, Bool, false, ◌&&◌, ◌||◌, map, Option, none, some, find, eqb, if◌then◌else◌,
}
use corrall.Prelude.Int.{ℤ, ltb_ℤ, leb_ℤ}
use corrall.Prelude.Bytes.{Bytes, codes, trim, split_once, bytes_eq}
use corrall.Prelude.Float.{Float}
use corrall.Prelude.Maps.{lookup, insert}
use corrall.Config.{for_bucket, is_text}
use corrall.Quota.{bucket, clear_expired}
use corrall.Session.{stats}
use corrall.Fleet.{Account, Fleet, Status, account_mut, is_throttled}
use corrall.Fleet.Upstream.{Platform}
use corrall.Fleet.Eligibility.{is_none, weekly_key_for}

-- `mgr_resolve`: the account that a pin names.
abbrev pub text_is : Bytes → Option String → Bool
text_is t none = false
text_is t (some s) = bytes_eq (codes s) t

module _ {F : Type 0} where
  unfoldable pub begin_ramp : String → ℤ → Fleet F → Fleet F
  begin_ramp id now f = account_mut id (λ a. record a { ramp_started_at = some now }) f

  -- Ramp only an account that is idle and has no ramp running.
  unfoldable pub ramp_if_cold : String → ℤ → Fleet F → Fleet F
  ramp_if_cold id now f =
      let busy = Option.get_or (lookup id (stats now f.sessions).per_account_active) 0 in
      account_mut id
        (λ a.
          if is_none a.ramp_started_at && (eqb a.in_flight 0 && eqb busy 0)
          then record a { ramp_started_at = some now }
          else a)
        f

  abbrev pub start_probing : Account F → Account F
  start_probing a = record a { probing = is_none a.quota.unified7d.reset_at }

  -- Move the cursor, or for a scoped diversion only ramp the account that is diverted to.
  unfoldable pub set_current : String → ℤ → Bool → Fleet F → Fleet F
  set_current id now scoped f =
      let moved = if scoped then f else record f { current = some id } in
      if is_text id f.current then moved else account_mut id start_probing (begin_ramp id now moved)

  unfoldable pub rolled_over : Fleet F → Account F → Option Bytes → Bool
  rolled_over f a model =
      let key = weekly_key_for f model in
      if f.expiry.enabled && f.expiry.preempt
      then elim (Option.bind (bucket a.quota key) (λ b. b.reset_at)) [
        | none ↦ false
        | some reset ↦ elim (lookup key a.rollover_baseline) [
          | none ↦ false
          | some base ↦ ltb_ℤ base reset
        ]
      ]
      else false

  unfoldable pub note_baseline : String → Option Bytes → Fleet F → Fleet F
  note_baseline id model f =
      let key = weekly_key_for f model in
      if f.expiry.enabled && f.expiry.preempt
      then account_mut id
          (λ a. elim (Option.bind (bucket a.quota key) (λ b. b.reset_at)) [
            | none ↦ a
            | some r ↦ record a { rollover_baseline = insert key r a.rollover_baseline }
          ])
          f
      else f

  -- An account whose pause has ended.
  abbrev pub lift_pause : ℤ → Account F → Account F
  lift_pause now a = elim a.rate_limited_until [
    | none ↦ a
    | some until ↦
        if leb_ℤ until now
        then record a {
          rate_limited_until = none;
          quota_hold = false;
          status = if is_throttled a.status then Status.active else a.status;
        }
        else a
  ]

  abbrev pub owns : Bytes × Bytes → Account F → Bool
  owns (au, ou) a = text_is au a.account_uuid && text_is ou a.org_uuid

  abbrev pub is_named : Bytes → Account F → Bool
  is_named t a =
      bytes_eq (codes a.id) t
      || (text_is t a.account_uuid
          || (text_is t a.org_uuid || (bytes_eq (codes a.name) t || text_is t a.email)))

  unfoldable pub mgr_resolve : Fleet F → String → Option String
  mgr_resolve f token =
      let t = trim (codes token) in
      let owner = Option.bind (split_once b'/' t) (λ p. find (owns p) f.accounts) in
      elim owner [
        | some a ↦ some a.id
        | none ↦ Option.map (λ (a : Account F). a.id) (find (is_named t) f.accounts)
      ]

module _ {F : Type 0} ⦃fl : Float F⦄ ⦃pf : Platform⦄ where
  unfoldable pub clear_expired_all : ℤ → Fleet F → Fleet F
  clear_expired_all now f = record f {
    accounts =
        map
          (λ (a : Account F). lift_pause now (record a {
            quota = (clear_expired now pf.family_stale_ms (for_bucket f.threshold) a.quota).0;
          }))
          f.accounts;
  }
