-- ===== src/Fleet/Responses.antt =====
-- src/manager.rs: what the headers of a response and the profile of a login tell of an account, and
-- the account that a handle of the command line names.
pub mod Readings
use mathlib.Core.Option
use corrall.Prelude.{
  String, Bool, true, false, not, ◌&&◌, ◌||◌, List, [], ◌∷◌, Option, none, some, find,
  if◌then◌else◌, ◌==◌,
}
use corrall.Prelude.Int.{ℤ}
use corrall.Prelude.Bytes.{Bytes, codes, trim, split_once, bytes_eq}
use corrall.Prelude.Texts.{trim_text}
use corrall.Prelude.Float.{Float}
use corrall.Prelude.Maps.{Map, lookup}
use corrall.Config.{for_bucket}
use corrall.Config.Pools.Handles.{before_paren}
use corrall.Config.Pools.{is_blank}
use corrall.Quota.{Quota, apply_headers, clear_expired, or_else}
use corrall.Codex.{apply_codex_headers}
use corrall.Fleet.{Account, Fleet, Provider, Usage, account, account_mut, is_provider}
use corrall.Fleet.Upstream.{Platform}
use corrall.Fleet.Eligibility.{Near, is_none, near_quota, threshold_for}
use corrall.Fleet.Cursor.{is_named, owns}
use corrall.Fleet.Tallies.{one_more}

-- The part of `oauth::Profile` that the fleet reads.
pub record Profile : Type 0 where
  pub account_uuid : Option String
  pub email : Option String
  pub org_uuid : Option String
  pub org_name : Option String
  pub rate_limit_tier : Option String
  pub seat_tier : Option String

-- What a response made known: the account reached its threshold, and why; its weekly quota was
-- unknown until now.
pub record Noted (F : Type 0) : Type 0 where
  pub fleet : Fleet F
  pub crossed : Option (String × Near F)
  pub learned : Option String

module _ {F : Type 0} where
  -- `Manager::apply_profile`
  abbrev pub take_profile : Profile → Account F → Account F
  take_profile p a = record a {
    account_uuid = or_else a.account_uuid p.account_uuid;
    org_uuid = or_else a.org_uuid p.org_uuid;
    org_name = or_else a.org_name p.org_name;
    email = or_else a.email p.email;
    rate_limit_tier = or_else p.rate_limit_tier a.rate_limit_tier;
    seat_tier = or_else p.seat_tier a.seat_tier;
  }

  unfoldable pub apply_profile : String → Profile → Fleet F → Fleet F
  apply_profile id p f = account_mut id (take_profile p) f

  -- A name, an id, a uuid, an e-mail, or the beginning of a name.
  abbrev pub answers_to : Bytes → Account F → Bool
  answers_to t a = is_named t a || bytes_eq (before_paren (codes a.name)) t

  -- `Manager::resolve_pin`
  unfoldable pub resolve_pin : String → Fleet F → Option String
  unfolding before_paren
  resolve_pin token f =
      let t = trim (codes token) in
      let owner = Option.bind (split_once b'/' t) (λ p. find (owns p) f.accounts) in
      if is_blank t then none else elim owner [
        | some a ↦ some a.id
        | none ↦ Option.map (λ (a : Account F). a.id) (find (answers_to t) f.accounts)
      ]

  -- A probe that told the weekly reset is over.
  abbrev pub has_learned : Account F → Bool
  has_learned a = a.probing && not (is_none a.quota.unified7d.reset_at)

  abbrev pub end_probing : Account F → Account F
  end_probing a = if has_learned a then record a { probing = false; requalify = true } else a

  abbrev pub count_response : String → Account F → Account F
  count_response stamp a = record a {
    usage = record a.usage {
      total_requests = one_more a.usage.total_requests;
      last_used = some stamp;
    };
  }

module _ {F : Type 0} ⦃fl : Float F⦄ where
  abbrev pub read_plan : Option String → Account F → Account F
  read_plan none a = a
  read_plan (some p) a = record a { plan_type = some (trim_text p) }

  abbrev pub read_response : Map String → ℤ → Account F → Account F
  read_response h now a =
      if is_provider a.provider Provider.codex
      then read_plan (lookup "x-codex-plan-type" h)
          (record a { quota = apply_codex_headers h now a.quota })
      else record a { quota = apply_headers h now a.quota }

  -- What `update_quota` does before it clears what has expired.
  abbrev pub note_response : Map String → String → ℤ → Account F → Account F
  note_response h stamp now a = end_probing (count_response stamp (read_response h now a))

module _ {F : Type 0} ⦃fl : Float F⦄ ⦃pf : Platform⦄ where
  abbrev pub sweep_quota : ℤ → Fleet F → Account F → Account F
  sweep_quota now f a = record a {
    quota = (clear_expired now pf.family_stale_ms (threshold_for f) a.quota).0;
  }

  abbrev pub is_near : String → Fleet F → Bool
  is_near id f = elim (account f id) [ none ↦ true | some a ↦ not (is_none (near_quota f a none)) ]

  -- The warning, if the account was not near its threshold before.
  abbrev pub crossing : Bool → Fleet F → Option (Account F) → Option (String × Near F)
  crossing before f none = none
  crossing true f (some a) = none
  crossing false f (some a) = Option.map (λ why. (a.name, why)) (near_quota f a none)

  abbrev pub learning : Map String → ℤ → Option (Account F) → Option String
  learning h now none = none
  learning h now (some a) = if has_learned (read_response h now a) then some a.name else none

  -- `Manager::update_quota`; `stamp` is the present time as a text.
  unfoldable pub update_quota : String → Map String → String → ℤ → Fleet F → Noted F
  update_quota id h stamp now f =
      let g = account_mut id (λ a. sweep_quota now f (note_response h stamp now a)) f in
      record {
        fleet = g;
        crossed = crossing (is_near id f) g (account g id);
        learned = learning h now (account f id);
      }
