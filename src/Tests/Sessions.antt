-- ===== src/Tests/Sessions.antt =====
-- Witnesses for the session table.
use corrall.Prelude.{ℕ, ◌≡◌, refl, List, [], ◌∷◌, none, some, arith}
use corrall.Prelude.Int.{pos}
use corrall.Prelude.Maps.{lookup}
use corrall.Prelude.Json.{Json, null}
use corrall.Session.{
  SessionTracker, new, valid_session_id, begin_request, end_request, touch, record_tokens,
}
use corrall.Session.Table.{IsTable}
use corrall.Session.Capacity.{Call, begins, ends, touches, run, run-new-IsTable}
use corrall.Session.Requests.{busy_kept, end-begin_request}
use corrall.Tests.Fixtures.{one_session, busy_session}

abbrev some_calls : List (Call ℕ)
some_calls =
    begins "alpha" none (pos 5)
    ∷ touches "alpha" (some "work") (some "unified-7d") (pos 6)
    ∷ ends "alpha" (pos 9)
    ∷ []

run-new-IsTable_example : IsTable (run new some_calls)
run-new-IsTable_example = run-new-IsTable some_calls

one_session-IsTable : IsTable one_session
unfolding lookup
one_session-IsTable = record { unique = (refl, tt); bounded = omega arith }

abbrev no_usage : Json ℕ
no_usage = null

busy_kept_example :
    (lookup "alpha" (begin_request "beta" none (pos 9000000) one_session).sessions
      ≡ some busy_session)
    × (lookup "alpha" (touch "beta" (some "work") none (pos 9000000) one_session).sessions
        ≡ some busy_session)
    × (lookup "alpha" (end_request "beta" (pos 9000000) one_session).sessions ≡ some busy_session)
    × (lookup "alpha"
          (record_tokens "beta" "unified-7d" no_usage (pos 9000000) one_session).sessions
        ≡ some busy_session)
unfolding lookup
busy_kept_example =
    busy_kept "alpha" busy_session (omega arith) "beta" "unified-7d" none (some "work") none
      no_usage (pos 9000000) one_session one_session-IsTable (λ e. cc e) refl

end-begin_request_example :
    lookup "alpha"
      (end_request "alpha"
        (pos 99000000)
        (begin_request "alpha" none (pos 9000000) one_session)).sessions
    ≡ some (record busy_session { last_seen = pos 99000000; client = none })
unfolding lookup valid_session_id
end-begin_request_example =
    end-begin_request "alpha" none (pos 9000000) (pos 99000000) one_session busy_session refl refl
      (omega arith)

abbrev pinned_twice : SessionTracker
pinned_twice = record new {
  sessions =
      (
        "alpha",
        record busy_session { pins = ("unified-7d", "gone") ∷ ("unified-7d_oi", "work") ∷ [] },
      )
      ∷ [];
}
