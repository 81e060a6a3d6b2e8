-- ===== src/Fleet/Select.antt =====
-- src/manager.rs: `Fleet::select`, stage by stage. A stage returns the fleet, and a selection if
-- it makes one; `or_next` goes on where it does not. Lines for the log are left out.
use mathlib.Core.Option
use corrall.Prelude.{
  ℕ, ◌*◌, String, Bool, true, false, not, ◌&&◌, ◌||◌, List, [], ◌∷◌, Option, none, some,
  if◌then◌else◌, ◌==◌,
}
use corrall.Prelude.Int.{ℤ, ltb_ℤ, younger, i64_max}
use corrall.Prelude.Bytes.{Bytes}
use corrall.Prelude.Float.{Float}
use corrall.Prelude.Maps.{lookup}
use corrall.Quota.{or_else}
use corrall.Session.{member, pinned_account, any_pin}
use corrall.Fleet.{Account, Fleet, Selected, SelectRequest, account, account_mut}
use corrall.Fleet.Cursor.{set_current, ramp_if_cold, rolled_over, note_baseline, mgr_resolve}
use corrall.Fleet.Upstream.{Platform, upstream_for}
use corrall.Fleet.Eligibility.{
  Reason, is_none, is_soft, route_for, weekly_key_for, unavailable_reason_for, is_available_for,
}
use corrall.Fleet.Ranking.{ranked_available, soonest_reset_preempts, weekly_reset_for}

abbrev pub throttle_probe_floor_ms : ℕ
throttle_probe_floor_ms = 30 * 1000

-- The reasons of an exhausted fleet: each account with why it is out, or `none` if it was tried.
pub data Selection (F : Type 0) : Type 0 where
  chosen : Selected → Selection F
  exhausted : Option ℕ → List (String × Option (Reason F)) → Selection F
  pin_unavailable : String → Option (Reason F) → Selection F
  pin_unknown : Selection F

abbrev pub Outcome : Type 0 → Type 0
Outcome F = Fleet F × Option (Selection F)

abbrev pub or_next : {F : Type 0} → Outcome F → (Fleet F → Outcome F) → Outcome F
or_next (f, some s) next = (f, some s)
or_next (f, none) next = next f

abbrev pub probed_lately : ℤ → Option ℤ → Bool
probed_lately now none = false
probed_lately now (some t) = younger now t throttle_probe_floor_ms

module _ {F : Type 0} ⦃fl : Float F⦄ ⦃pf : Platform⦄ where
  -- What the forwarder gets of an account that has a credential and an upstream that takes it.
  unfoldable pub snapshot : Fleet F → Account F → Option Selected
  snapshot f a = elim (upstream_for a f.default_upstream) [
    | none ↦ none
    | some upstream ↦ elim a.credential [
      | none ↦ none
      | some credential ↦ some (record {
        id = a.id;
        name = a.name;
        kind = a.kind;
        provider = a.provider;
        account_id = a.account_id;
        credential = credential;
        account_uuid = a.account_uuid;
        upstream = upstream;
        model_map = a.model_map;
        strip_request_fields = a.strip_request_fields;
      })
    ]
  ]

  abbrev pub serve : Fleet F → Account F → Outcome F
  serve f a = (f, Option.map chosen (snapshot f a))

  -- `self.snapshot(self.account(&id).unwrap())`, for an id that was just found.
  abbrev pub serve_id : Fleet F → String → Outcome F
  serve_id f id = elim (account f id) [ none ↦ (f, none) | some a ↦ serve f a ]

  abbrev pub first : List (Account F) → Option (Account F)
  first [] = none
  first (a ∷ v) = some a

  -- Run on the best account, if there is one.
  abbrev pub with_best : Fleet F → SelectRequest → ℤ → (Account F → Outcome F) → Outcome F
  with_best f req now use_it = elim (first (ranked_available f req now)) [
    | none ↦ (f, none)
    | some best ↦ use_it best
  ]

  -- 1. An explicit pin never fails over.
  unfoldable pub select_pinned : Fleet F → SelectRequest → ℤ → Account F → Selection F
  select_pinned f req now a =
      let reason = unavailable_reason_for f a req.model req.advisor_model req.provider now in
      let served : Selection F = elim (snapshot f a) [
        | some s ↦ chosen s
        | none ↦ pin_unavailable a.name none
      ] in
      elim reason [
        | none ↦ served
        | some r ↦ if is_soft r then served else pin_unavailable a.name (some r)
      ]

  unfoldable pub select_pin : Fleet F → SelectRequest → ℤ → String → Selection F
  unfolding select_pinned
  select_pin f req now pin = elim (Option.bind (mgr_resolve f pin) (account f)) [
    | none ↦ pin_unknown
    | some a ↦ select_pinned f req now a
  ]

  -- May the account at hand serve?
  abbrev pub may_serve : Fleet F → SelectRequest → ℤ → Account F → Bool
  may_serve f req now a = not (member a.id req.exclude) && is_available_for f a req now

  -- 2. A manual route pin.
  unfoldable pub select_route_pin : SelectRequest → ℤ → Fleet F → Outcome F
  select_route_pin req now f =
      let pinned = Option.bind req.model (λ m.
        Option.bind (route_for f m) (λ r. Option.bind (lookup r.name f.route_pins) (account f))) in
      elim pinned [
        | none ↦ (f, none)
        | some a ↦ if may_serve f req now a then serve f a else (f, none)
      ]

  -- A strictly better priority, or an earlier band under soonest-reset routing.
  unfoldable pub is_better : Fleet F → SelectRequest → ℤ → Account F → Bool
  is_better f req now a = elim (first (ranked_available f req now)) [
    | none ↦ false
    | some b ↦ ltb_ℤ b.priority a.priority || soonest_reset_preempts f b a req now
  ]

  -- Stay on `a` unless a better account or a rollover preempts it.
  unfoldable pub stay : SelectRequest → ℤ → Account F → Fleet F → Outcome F
  stay req now a f =
      if is_better f req now a || rolled_over f a req.model
      then (f, none)
      else serve (note_baseline a.id req.model f) a

  abbrev pub session_pin : Fleet F → Option Bytes → String → Option String
  session_pin f model sid =
      or_else (pinned_account sid (weekly_key_for f model) f.sessions)
        (if f.distribute_sessions then any_pin sid f.sessions else none)

  unfoldable pub select_session_pin : SelectRequest → ℤ → String → Fleet F → Outcome F
  select_session_pin req now sid f = elim (Option.bind (session_pin f req.model sid) (account f)) [
    | none ↦ (f, none)
    | some a ↦ if may_serve f req now a then stay req now a f else (f, none)
  ]

  abbrev pub current_ok : Fleet F → SelectRequest → ℤ → Bool
  current_ok f req now = elim (Option.bind f.current (account f)) [
    | none ↦ false
    | some c ↦ is_none (unavailable_reason_for f c none none req.provider now)
  ]

  -- A new session goes to the least loaded account.
  unfoldable pub select_new_session : SelectRequest → ℤ → Fleet F → Outcome F
  select_new_session req now f =
      if f.distribute_sessions
      then with_best f req now (λ best.
        serve_id
          (if current_ok f req now
            then ramp_if_cold best.id now f
            else set_current best.id now false f)
          best.id)
      else (f, none)

  -- 3. Session affinity.
  unfoldable pub select_session : SelectRequest → ℤ → Fleet F → Outcome F
  select_session req now f = elim req.session_id [
    | none ↦ (f, none)
    | some sid ↦ or_next (select_session_pin req now sid f) (select_new_session req now)
  ]

  abbrev pub move_to : SelectRequest → ℤ → Fleet F → Account F → Outcome F
  move_to req now f best =
      serve_id (note_baseline best.id req.model (set_current best.id now false f)) best.id

  -- The account at the cursor learned its weekly quota: rank again.
  unfoldable pub select_requalified : SelectRequest → ℤ → Account F → Fleet F → Outcome F
  select_requalified req now cur f =
      let again = account_mut cur.id (λ a. record a { requalify = false }) f in
      if cur.requalify then with_best again req now (move_to req now again) else (f, none)

  abbrev pub move_on : SelectRequest → ℤ → String → Fleet F → Account F → Outcome F
  move_on req now cur f best =
      serve_id
        (note_baseline best.id req.model
          (if best.id == cur then f else set_current best.id now false f))
        best.id

  -- Is the account barred only for this model?
  abbrev pub is_scoped : Fleet F → SelectRequest → ℤ → Account F → Bool
  is_scoped f req now a =
      is_none (unavailable_reason_for f a none none req.provider now)
      && not (member a.id req.exclude)

  -- A model-scoped bar diverts the request without moving the cursor.
  abbrev pub divert : SelectRequest → ℤ → Account F → Fleet F → Account F → Outcome F
  divert req now cur f best = serve_id (set_current best.id now (is_scoped f req now cur) f) best.id

  -- `cur` is the account as it was before `requalify` was reset.
  unfoldable pub select_sticky : SelectRequest → ℤ → Account F → Fleet F → Outcome F
  select_sticky req now cur f =
      if may_serve f req now cur
      then or_next (stay req now cur f) (λ g. with_best g req now (move_on req now cur.id g))
      else with_best f req now (divert req now cur f)

  -- 4. The sticky current account.
  unfoldable pub select_current : SelectRequest → ℤ → Fleet F → Outcome F
  select_current req now f = elim (Option.bind f.current (account f)) [
    | none ↦ (f, none)
    | some a ↦ or_next (select_requalified req now a f) (select_sticky req now a)
  ]

  -- 5. The best account.
  unfoldable pub select_best : SelectRequest → ℤ → Fleet F → Outcome F
  select_best req now f = with_best f req now (move_to req now f)

  abbrev pub is_soft_reason : Option (Reason F) → Bool
  is_soft_reason none = false
  is_soft_reason (some r) = is_soft r

  -- Held back by quota alone, and not probed within half a minute.
  unfoldable pub may_probe : Fleet F → SelectRequest → ℤ → Account F → Bool
  may_probe f req now a =
      not (member a.id req.exclude)
      && (is_soft_reason (unavailable_reason_for f a req.model req.advisor_model req.provider now)
          && not (probed_lately now a.last_probe_at))

  abbrev pub probe_reset : Account F → Option Bytes → ℤ
  probe_reset a model =
      Option.get_or (or_else (weekly_reset_for a model) a.quota.unified5h.reset_at) i64_max

  -- The candidate whose window resets first; of equals the earlier one stays.
  unfoldable pub probe_candidate :
      Fleet F → SelectRequest → ℤ → Option (ℤ × String) → List (Account F) → Option (ℤ × String)
  probe_candidate f req now best [] = best
  probe_candidate f req now best (a ∷ v) =
      let reset = probe_reset a req.model in
      let sooner : Bool = elim best [ none ↦ true | some (r, id) ↦ ltb_ℤ reset r ] in
      probe_candidate f req now
        (if may_probe f req now a && sooner then some (reset, a.id) else best) v

  -- 6. Revalidate one soft-excluded account with a live request.
  unfoldable pub select_probe : SelectRequest → ℤ → Fleet F → Outcome F
  select_probe req now f =
      let probed = λ (a : Account F). record a { last_probe_at = some now } in
      if req.allow_probe
      then elim (probe_candidate f req now none f.accounts) [
        | none ↦ (f, none)
        | some (reset, id) ↦ serve_id (account_mut id probed f) id
      ]
      else (f, none)
