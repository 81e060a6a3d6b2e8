-- ===== src/Session/Capacity.antt =====
-- The session table under any sequence of the tracker's calls.
use corrall.Prelude.{String, List, [], ◌∷◌, Option, arith}
use corrall.Prelude.Int.{ℤ}
use corrall.Prelude.Json.{Json}
use corrall.Prelude.Maps.Unique.{map_values-Unique, length-map_values}
use corrall.Session.{
  SessionTracker, new, sweep, begin_request, end_request, touch, record_tokens, remap_accounts,
  live_pins, ensure, begin_session, end_session, touch_session,
}
use corrall.Session.Table.{IsTable, sweep-IsTable, update-IsTable, ensure-IsTable, ensured-IsTable}

end_request-IsTable :
    (id : String) (now : ℤ) (t : SessionTracker) → IsTable t → IsTable (end_request id now t)
unfolding end_request
end_request-IsTable id now t v =
    let ended = update-IsTable id (end_session now) t v in
    ground (arith, ended, sweep-IsTable now _ ended)

remap-IsTable :
    (live_ids : List String) (t : SessionTracker) → IsTable t → IsTable (remap_accounts live_ids t)
unfolding remap_accounts
remap-IsTable live_ids t v = record {
  unique = map_values-Unique (live_pins live_ids) t.sessions v.unique;
  bounded = omega (arith, length-map_values (live_pins live_ids) t.sessions, v.bounded);
}

new-IsTable : IsTable new
new-IsTable = record { unique = tt; bounded = omega arith }

-- The calls that change a tracker.
pub data Call (F : Type 0) : Type 0 where
  begins : String → Option String → ℤ → Call F
  ends : String → ℤ → Call F
  touches : String → Option String → Option String → ℤ → Call F
  reports : String → String → Json F → ℤ → Call F
  remaps : List String → Call F
  sweeps : ℤ → Call F

module _ {F : Type 0} where
  pub step : SessionTracker → Call F → SessionTracker
  step t (begins id client now) = begin_request id client now t
  step t (ends id now) = end_request id now t
  step t (touches id account bucket now) = touch id account bucket now t
  step t (reports id bucket usage now) = record_tokens id bucket usage now t
  step t (remaps live_ids) = remap_accounts live_ids t
  step t (sweeps now) = sweep now t

  pub run : SessionTracker → List (Call F) → SessionTracker
  run t [] = t
  run t (c ∷ calls) = run (step t c) calls

  pub step-IsTable : (t : SessionTracker) (c : Call F) → IsTable t → IsTable (step t c)
  unfolding step begin_request touch record_tokens
  step-IsTable t (begins id client now) v =
      ensured-IsTable id (begin_session client now) (ensure id now t) (ensure-IsTable id now t v)
  step-IsTable t (ends id now) v = end_request-IsTable id now t v
  step-IsTable t (touches id account bucket now) v =
      ensured-IsTable id (touch_session account bucket now) (ensure id now t)
        (ensure-IsTable id now t v)
  step-IsTable t (reports id bucket usage now) v = update-IsTable id _ t v
  step-IsTable t (remaps live_ids) v = remap-IsTable live_ids t v
  step-IsTable t (sweeps now) v = sweep-IsTable now t v

  run-IsTable : (t : SessionTracker) (calls : List (Call F)) → IsTable t → IsTable (run t calls)
  unfolding run
  run-IsTable t [] v = v
  run-IsTable t (c ∷ calls) v = run-IsTable (step t c) calls (step-IsTable t c v)

  -- However the tracker is called, it holds at most `max_sessions` sessions, each id once.
  pub run-new-IsTable : (calls : List (Call F)) → IsTable (run new calls)
  run-new-IsTable calls = run-IsTable new calls new-IsTable
