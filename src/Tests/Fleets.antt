-- ===== src/Tests/Fleets.antt =====
-- Witnesses for the fleet.
use mathlib.Core.Option
use corrall.Prelude.{ℕ, ◌≡◌, ◌≢◌, refl, true, [], ◌∷◌, map, none, some, arith, all, not, List}
use corrall.Prelude.Int.{ℤ, pos, sub_i64, add_i64, scale_i64, wrap_i64, ◌-ℤ◌, ◌+ℤ◌, div_i64}
use corrall.Prelude.Bytes.{split_once, trim, bytes_eq}
use corrall.Prelude.Json.{Json}
use corrall.Fleet.{Account, Fleet, SelectRequest, account, account_mut, modify_first}
use corrall.Fleet.Admission.{try_admit, admit, release, admit_account, ramp_cap}
use corrall.Fleet.Admission.Slots.{flight, release-try_admit}
use corrall.Fleet.Admission.Ramp.{admit-returns}
use corrall.Fleet.Cursor.{clear_expired_all, mgr_resolve, set_current, begin_ramp, note_baseline}
use corrall.Prelude.Float.{clamp}
use corrall.Prelude.Sort.{sort_by, insert_by}
use corrall.Model.{weekly_bucket_for}
use corrall.Config.{for_bucket, clamp01, entry}
use corrall.Quota.{
  no_quota, clear_expired, is_reset, reset_step, stale_step, is_spent_stale, bucket_mut,
  expire_status, bucket, gating_weekly, tokens_used, requests_used, soonest_reset,
}
use corrall.Session.{stats, count_sessions}
use corrall.Fleet.Upstream.{upstream_for}
use corrall.Fleet.Eligibility.{
  is_available_for, unavailable_reason_for, route_allows, route_for, weekly_key_for, capped_bucket,
  near_quota, is_soft, unavailable_key, quota, weekly, disabled,
}
use corrall.Fleet.Ranking.{ranked_available, ranked_by_default, available, weekly_reset_for}
use corrall.Fleet.Ranking.Priority.{no_later, ranked-priority}
use corrall.Fleet.Select.{select_requalified, select_sticky, stay, is_better}
use corrall.Fleet.Ranking.{soonest_reset_preempts}
use corrall.Fleet.Cursor.{rolled_over}
use corrall.Fleet.Select.{
  chosen, select_route_pin, select_session, select_current, select_best, select_probe, snapshot,
  select_pin, select_pinned, exhausted, may_serve,
}
use corrall.Fleet.Selection.{
  select, select_unpinned, exhausted_info, exhausted_parts, bound_by_quota, held_back,
  soonest_recovery,
}
use corrall.Fleet.Selection.Scope.{serves}
use corrall.Fleet.Selection.Scope.Whole.{select-serves}
use corrall.Fleet.Selection.Pinned.{PinServes, select-pinned}
use corrall.Fleet.Selection.Exhausted.{RetriesWell, exhausted_info-RetriesWell}
use corrall.Fleet.Health.{hold}
use corrall.Fleet.Health.Holds.Runs.{after_selections, select-hold}
use corrall.Fleet.Selection.Complete.Idle.{select-exhausted}
use corrall.Fleet.Tallies.{record_token_usage_dims}
use corrall.Fleet.Tallies.Dimensions.{are_small, record_token_usage_dims-small}
use corrall.Tests.Fixtures.{
  fixed, site, two_accounts, fleet_of, account_named, plain_request, selected_as, used_quota,
  read_at,
}

abbrev ramping : Fleet ℕ
ramping = fleet_of (
    record (account_named "work" used_quota) { ramp_started_at = some (pos 1000); in_flight = 2 }
    ∷ [])

abbrev noon : ℤ
noon = pos 2000000

release-try_admit_example :
    map flight (release "work" (try_admit "work" (pos 2500) ramping).0).accounts
    ≡ map flight ramping.accounts
unfolding try_admit account admit_account ramp_cap sub_i64 wrap_i64 ◌-ℤ◌
release-try_admit_example =
    release-try_admit "work" (pos 2500) ramping ((omega arith, omega arith), tt) refl

admit-returns_example :
    (g : Fleet ℕ) × (t : ℤ) × (admit 201 "work" (pos 1500) ramping ≡ some (g, t))
unfolding account
admit-returns_example =
    admit-returns 200 "work" 1500 1000 ramping
      (record (account_named "work" used_quota) {
        ramp_started_at = some (pos 1000);
        in_flight = 2;
      })
      refl refl (omega arith) (omega arith) (omega arith)

exhausted_info-RetriesWell_example :
    RetriesWell two_accounts plain_request noon (exhausted_info two_accounts plain_request noon).0
exhausted_info-RetriesWell_example = exhausted_info-RetriesWell two_accounts plain_request noon

abbrev report : Json ℕ
report = Json.null

record_token_usage_dims-small_example :
    are_small
      (record_token_usage_dims "work" none none
        (("team", "blue") ∷ [])
        none
        report
        noon
        "now"
        two_accounts).dimension_usage
    ≡ true
record_token_usage_dims-small_example =
    record_token_usage_dims-small "work" none none (("team", "blue") ∷ []) none report noon "now"
      two_accounts refl

sent_home : (select plain_request noon two_accounts).1 ≡ chosen (selected_as "home")
unfolding select select_unpinned select_route_pin select_session select_current select_best
    select_probe clear_expired_all clear_expired is_reset reset_step stale_step is_spent_stale
    bucket_mut expire_status ranked_available ranked_by_default available sort_by insert_by
    is_available_for unavailable_reason_for upstream_for route_allows route_for weekly_key_for
    weekly_bucket_for capped_bucket near_quota bucket gating_weekly tokens_used requests_used
    for_bucket clamp01 entry clamp stats count_sessions weekly_reset_for set_current begin_ramp
    note_baseline account_mut modify_first account snapshot Option.bind
sent_home = refl

select-serves_example :
    serves (clear_expired_all noon two_accounts) plain_request noon "home" ≡ true
select-serves_example =
    select-serves two_accounts plain_request noon (selected_as "home") refl sent_home

-- Without the hold the first account would be chosen.
abbrev two_idle : Fleet ℕ
two_idle = fleet_of (account_named "work" no_quota ∷ account_named "home" no_quota ∷ [])

abbrev earlier : List (SelectRequest × ℕ)
earlier = (plain_request, 2010000) ∷ []

sent_elsewhere :
    (select plain_request
      (pos 2030000)
      (after_selections earlier (hold "work" 60 true noon two_idle))).1
    ≡ chosen (selected_as "home")
unfolding hold add_i64 scale_i64 wrap_i64 ◌+ℤ◌ select select_unpinned select_route_pin
    select_session select_current select_best select_probe clear_expired_all clear_expired is_reset
    reset_step stale_step is_spent_stale bucket_mut expire_status ranked_available ranked_by_default
    available sort_by insert_by is_available_for unavailable_reason_for upstream_for route_allows
    route_for weekly_key_for weekly_bucket_for capped_bucket near_quota bucket gating_weekly
    tokens_used requests_used for_bucket clamp01 entry clamp stats count_sessions weekly_reset_for
    set_current begin_ramp note_baseline account_mut modify_first account snapshot Option.bind
    select_requalified select_sticky stay is_better soonest_reset_preempts rolled_over
sent_elsewhere = refl

select-hold_example : (selected_as "home").id ≢ "work"
select-hold_example =
    select-hold two_idle plain_request "work" 2000000 60 true earlier 2030000 (selected_as "home")
      refl (omega arith) refl (omega arith) refl sent_elsewhere

abbrev pinned_request : SelectRequest
pinned_request = record plain_request { pin = some "work" }

-- The account at its switch threshold serves a request that pins it.
sent_pinned : (select pinned_request noon two_accounts).1 ≡ chosen (selected_as "work")
unfolding select_pin select_pinned mgr_resolve split_once trim bytes_eq is_soft select
    select_unpinned select_route_pin select_session select_current select_best select_probe
    clear_expired_all clear_expired is_reset reset_step stale_step is_spent_stale bucket_mut
    expire_status ranked_available ranked_by_default available sort_by insert_by is_available_for
    unavailable_reason_for upstream_for route_allows route_for weekly_key_for weekly_bucket_for
    capped_bucket near_quota bucket gating_weekly tokens_used requests_used for_bucket clamp01 entry
    clamp stats count_sessions weekly_reset_for set_current begin_ramp note_baseline account_mut
    modify_first account snapshot Option.bind
sent_pinned = refl

select-pinned_example :
    (a : Account ℕ) × PinServes
      (clear_expired_all noon two_accounts)
      pinned_request
      noon
      "work"
      (selected_as "work")
      a
select-pinned_example =
    select-pinned two_accounts pinned_request noon "work" (selected_as "work") refl sent_pinned

-- One account over its threshold, and one that is disabled.
abbrev nobody : Fleet ℕ
nobody = fleet_of (
    account_named "work" (record no_quota { unified7d = read_at 9900 90000000 1000 })
    ∷ record (account_named "home" no_quota) { disabled = true }
    ∷ [])

told_exhausted :
    (select plain_request noon nobody).1
    ≡ exhausted
        (some 3600)
        (("work", some (quota (weekly "unified7d" 9900 0))) ∷ ("home", some disabled) ∷ [])
unfolding exhausted_info exhausted_parts bound_by_quota held_back unavailable_key soonest_recovery
    soonest_reset sub_i64 wrap_i64 ◌-ℤ◌ div_i64 select select_unpinned select_route_pin
    select_session select_current select_best select_probe clear_expired_all clear_expired is_reset
    reset_step stale_step is_spent_stale bucket_mut expire_status ranked_available ranked_by_default
    available sort_by insert_by is_available_for unavailable_reason_for upstream_for route_allows
    route_for weekly_key_for weekly_bucket_for capped_bucket near_quota bucket gating_weekly
    tokens_used requests_used for_bucket clamp01 entry clamp stats count_sessions weekly_reset_for
    set_current begin_ramp note_baseline account_mut modify_first account snapshot Option.bind
told_exhausted = refl

select-exhausted_example :
    all
      (λ (a : Account ℕ). not (may_serve (clear_expired_all noon nobody) plain_request noon a))
      (clear_expired_all noon nobody).accounts
    ≡ true
unfolding clear_expired_all
select-exhausted_example =
    select-exhausted nobody plain_request noon (some 3600)
      (("work", some (quota (weekly "unified7d" 9900 0))) ∷ ("home", some disabled) ∷ []) refl refl
      refl told_exhausted

abbrev backup : Account ℕ
backup = record (account_named "backup" no_quota) { priority = pos 1 }

abbrev main : Account ℕ
main = record (account_named "main" no_quota) { priority = pos 0 }

main_first :
    ranked_available (fleet_of (backup ∷ main ∷ [])) plain_request noon ≡ main ∷ backup ∷ []
unfolding ranked_available ranked_by_default available sort_by insert_by is_available_for
    unavailable_reason_for upstream_for route_allows route_for weekly_key_for weekly_bucket_for
    capped_bucket near_quota bucket gating_weekly tokens_used requests_used for_bucket clamp01 entry
    clamp stats count_sessions weekly_reset_for Option.bind
main_first = refl

ranked-priority_example :
    all (no_later main) (available (fleet_of (backup ∷ main ∷ [])) plain_request noon) ≡ true
ranked-priority_example =
    ranked-priority (fleet_of (backup ∷ main ∷ [])) plain_request noon main (backup ∷ []) refl
      main_first
