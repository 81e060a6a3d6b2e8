-- ===== src/Fleet/Eligibility.antt =====
-- src/manager.rs: whether an account can serve a request now, and why not.
-- A reason is a constructor where the source formats a text that begins with its key.

use mathlib.Core.Option
use corrall.Prelude.{
  ℕ, String, Bool, true, false, not, ◌&&◌, ◌||◌, List, [], ◌∷◌, Option, none, some, find, any,
  get_elem?, if◌then◌else◌, ◌==◌,
}
use corrall.Prelude.Int.{ℤ, pos, ltb_ℤ}
use corrall.Prelude.Bytes.{Bytes, codes, parse_usize}
use corrall.Prelude.Float.{Float}
use corrall.Model.{
  bucket_5h, bucket_7d, bucket_7d_fable, bucket_7d_sonnet, weekly_bucket_for, any_glob_matches,
}
use corrall.Config.{RouteConfig, for_bucket, cap_for}
use corrall.Quota.{bucket, gating_weekly, tokens_used, requests_used}
use corrall.Fleet.Upstream.{Platform, upstream_for}
use corrall.Fleet.{Account, Fleet, Provider, SelectRequest, is_error, is_provider}

-- Near its threshold: the bucket, the reading, and the open requests that it counts.
pub data Near (F : Type 0) : Type 0 where
  five_hour : F → ℕ → Near F
  weekly : String → F → ℕ → Near F
  tokens : F → Near F
  requests : F → Near F

pub data Reason (F : Type 0) : Type 0 where
  other_provider disabled no_credential upstream_refused : Reason F
  error : Option String → Reason F
  rate_limited : ℤ → Reason F
  entitlement route route_advisor : Reason F
  capped : String → Reason F
  advisor_capped : String → Reason F
  quota : Near F → Reason F
  quota_advisor : Near F → Reason F

-- The first of a row of checks that finds something: `if let Some(r) = … { return … }`.
abbrev pub first_some {ℓ} : {A : Type ℓ} → List (Option A) → Option A
first_some [] = none
first_some (some a ∷ checks) = some a
first_some (none ∷ checks) = first_some checks

abbrev pub when {ℓ} : {A : Type ℓ} → Bool → A → Option A
when true a = some a
when false a = none

abbrev pub is_none {ℓ} : {A : Type ℓ} → Option A → Bool
is_none none = true
is_none (some a) = false

abbrev pub known_weekly : String → String
known_weekly b =
    if b == bucket_7d_fable
    then bucket_7d_fable
    else if b == bucket_7d_sonnet
    then bucket_7d_sonnet
    else bucket_7d

module _ {F : Type 0} where
  -- The first route whose globs match `model`.
  unfoldable pub route_for : Fleet F → Bytes → Option RouteConfig
  route_for f model = find (λ r. any_glob_matches r.patterns model) f.routes

  -- An account named by its place in the list.
  abbrev pub is_indexed : Fleet F → String → Account F → Bool
  is_indexed f n a = elim (Option.bind (parse_usize (codes n)) (get_elem? f.accounts)) [
    | none ↦ false
    | some x ↦ x.id == a.id
  ]

  abbrev pub lists_account : Fleet F → Account F → List String → Bool
  lists_account f a [] = true
  lists_account f a (n ∷ ns) = any (λ m. m == a.name || (m == a.id || is_indexed f m a)) (n ∷ ns)

  unfoldable pub route_allows : Fleet F → Account F → Option Bytes → Bool
  route_allows f a none = true
  route_allows f a (some m) = elim (route_for f m) [
    | none ↦ true
    | some r ↦ lists_account f a r.accounts
  ]

  -- The bucket key that governs a model, with a route's override.
  unfoldable pub weekly_key_for : Fleet F → Option Bytes → String
  weekly_key_for f none = weekly_bucket_for none
  weekly_key_for f (some m) = elim (Option.bind (route_for f m) (λ r. r.bucket)) [
    | some b ↦ known_weekly b
    | none ↦ weekly_bucket_for (some m)
  ]

module _ {F : Type 0} ⦃fl : Float F⦄ where
  -- `f.threshold_for`
  abbrev pub threshold_for : Fleet F → String → F
  threshold_for f = for_bucket f.threshold

  abbrev pub at_cap : Option F → Option F → Bool
  at_cap (some c) (some u) = fl.ge u c
  at_cap (some c) none = false
  at_cap none u = false

  -- The bucket at which `a` has reached its own hard cap, if any.
  unfoldable pub capped_bucket : Fleet F → Account F → Option Bytes → Option String
  capped_bucket f a model = elim a.max_usage [
    | none ↦ none
    | some caps ↦
        let q = a.quota in
        let key = weekly_key_for f model in
        let own = Option.bind (bucket q key) (λ b. b.utilization) in
        first_some (
          when (at_cap (cap_for caps bucket_5h) q.unified5h.utilization) bucket_5h
          ∷ when (at_cap (cap_for caps bucket_7d) q.unified7d.utilization) bucket_7d
          ∷ when (not (key == bucket_7d) && at_cap (cap_for caps key) own) key
          ∷ when (at_cap (cap_for caps "tokens") (tokens_used q)) "tokens"
          ∷ [])
  ]

  -- Usage that open requests are assumed to add: 0.01 for each.
  abbrev pub headroom : Account F → F
  headroom a = fl.mul (fl.of_int (pos a.open_requests)) (fl.decimal 1 2)

  abbrev pub at_threshold : Option F → F → F → Bool
  at_threshold none margin th = false
  at_threshold (some u) margin th = fl.ge (fl.add u margin) th

  abbrev pub reached : Option F → F → Bool
  reached none th = false
  reached (some u) th = fl.ge u th

  abbrev pub reading : Option F → F
  reading u = Option.get_or u (fl.decimal 0 0)

  unfoldable pub near_quota : Fleet F → Account F → Option Bytes → Option (Near F)
  near_quota f a model =
      let q = a.quota in
      let margin = headroom a in
      let key = weekly_key_for f model in
      let weekly_use = gating_weekly q key in
      first_some (
        when (at_threshold q.unified5h.utilization margin (threshold_for f bucket_5h))
          (five_hour (reading q.unified5h.utilization) a.open_requests)
        ∷ when (at_threshold weekly_use margin (threshold_for f key))
            (weekly key (reading weekly_use) a.open_requests)
        ∷ when (reached (tokens_used q) (threshold_for f "tokens"))
            (tokens (reading (tokens_used q)))
        ∷ when (reached (requests_used q) (threshold_for f "requests"))
            (requests (reading (requests_used q)))
        ∷ [])

abbrev pub is_other : Option Provider → Provider → Bool
is_other none p = false
is_other (some want) p = not (is_provider p want)

abbrev pub is_later : Option ℤ → ℤ → Bool
is_later none now = false
is_later (some until) now = ltb_ℤ now until

module _ {F : Type 0} ⦃fl : Float F⦄ ⦃pf : Platform⦄ where
  -- Why `a` cannot serve `model` right now, or `none` if it can.
  unfoldable pub unavailable_reason_for :
      Fleet F → Account F → Option Bytes → Option Bytes → Option Provider → ℤ → Option (Reason F)
  unavailable_reason_for f a model advisor provider now =
      let asks_advisor = not (is_none advisor) in
      first_some (
        when (is_other provider a.provider) other_provider
        ∷ when a.disabled disabled
        ∷ when (is_none a.credential) no_credential
        ∷ when (is_none (upstream_for a f.default_upstream)) upstream_refused
        ∷ when (is_error a.status) (error a.error_message)
        ∷ when (is_later a.rate_limited_until now)
            (rate_limited (Option.get_or a.rate_limited_until now))
        ∷ when (is_later a.entitlement_denied_until now) entitlement
        ∷ when (not (route_allows f a model)) route
        ∷ when (asks_advisor && not (route_allows f a advisor)) route_advisor
        ∷ Option.map capped (capped_bucket f a model)
        ∷ (if asks_advisor then Option.map advisor_capped (capped_bucket f a advisor) else none)
        ∷ Option.map quota (near_quota f a model)
        ∷ (if asks_advisor then Option.map quota_advisor (near_quota f a advisor) else none)
        ∷ [])

  abbrev pub unavailable_reason :
      Fleet F → Account F → Option Bytes → Option Bytes → ℤ → Option (Reason F)
  unavailable_reason f a model advisor now = unavailable_reason_for f a model advisor none now

  unfoldable pub is_available_for : Fleet F → Account F → SelectRequest → ℤ → Bool
  is_available_for f a req now =
      is_none (unavailable_reason_for f a req.model req.advisor_model req.provider now)

module _ {F : Type 0} where
  -- The test `r.starts_with("quota:")`; the advisor's reason begins with "quota (advisor)".
  unfoldable pub is_soft : Reason F → Bool
  is_soft (quota n) = true
  is_soft _ = false

  -- The key of a reason in the status reports.
  unfoldable pub unavailable_key : Reason F → String
  unavailable_key other_provider = "other-provider"
  unavailable_key disabled = "disabled"
  unavailable_key no_credential = "unknown"
  unavailable_key upstream_refused = "upstream-refused"
  unavailable_key (error msg) = "error"
  unavailable_key (rate_limited until) = "throttled"
  unavailable_key entitlement = "entitlement"
  unavailable_key route = "route"
  unavailable_key route_advisor = "advisor-route"
  unavailable_key (capped b) = "capped"
  unavailable_key (advisor_capped b) = "advisor-capped"
  unavailable_key (quota n) = "quota"
  unavailable_key (quota_advisor n) = "advisor-quota"
