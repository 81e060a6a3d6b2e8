-- ===== src/Tests/Forwards.antt =====
-- A request that is rate limited on one account and served by the next, and witnesses.
use corrall.Prelude.{ℕ, zero, suc, ◌+◌, ◌≤◌, ◌*◌, String, ◌≡◌, refl, true, [], ◌∷◌, none, some}
use corrall.Prelude.Int.{pos}
use corrall.Fleet.{Fleet, Provider}
use corrall.Forward.{
  World, ReqInfo, done, retry_same, rate_limited_hop, forward, max_attempts, max_rate_limit_hops,
}
use corrall.Forward.Again.{is_left_for_good, forward-left}
use corrall.Forward.Pinned.{only_retried, forward-pinned}
use corrall.Forward.Limits.{count_asked, one_attempt, one_hop, one_retry, forward-limits}
use mathlib.Core.Option
use corrall.Prelude.Bytes.{trim, trim_start, is_whitespace, parse_i64, parse_digits}
use corrall.Prelude.Maps.{Map, lookup}
use corrall.Forward.Statuses.{five_hours, rejected_reset, quota_hold_secs}
use corrall.Forward.Statuses.Holds.{quota_hold_secs-covers}
use corrall.Tests.Fixtures.{fixed, site, account_named, fleet_of, used_quota}

abbrev siblings : Fleet ℕ
siblings = fleet_of (account_named "work" used_quota ∷ account_named "home" used_quota ∷ [])

abbrev plain : ReqInfo
plain = record {
  model = none;
  advisor_model = none;
  session_id = none;
  pin = none;
  provider = Provider.anthropic;
}

-- The first attempt is rate limited, the second served.
abbrev limited_once : World ℕ String
limited_once = record {
  others = λ n f. f;
  clock = λ n. pos (2000 + n);
  finished = λ n. pos (2001 + n);
  hold_deadline = none;
  attempt = λ n s f. elim n [ zero ↦ (f, rate_limited_hop 30) | suc m ↦ (f, done "answer") ];
}

forward-left_example : is_left_for_good (forward limited_once plain siblings).asked ≡ true
forward-left_example = forward-left limited_once plain siblings refl refl

forward-limits_example :
    (count_asked one_attempt (forward limited_once plain siblings).asked ≤ 3 * max_attempts)
    × (count_asked one_hop (forward limited_once plain siblings).asked ≤ max_rate_limit_hops)
    × (count_asked one_retry (forward limited_once plain siblings).asked ≤ 5)
forward-limits_example = forward-limits limited_once plain siblings

-- Every attempt is to be retried.
abbrev limited_always : World ℕ String
limited_always = record limited_once { attempt = λ n s f. (f, retry_same 1) }

forward-pinned_example :
    (count_asked one_attempt
        (forward limited_always (record plain { pin = some "work" }) siblings).asked
      ≤ 5)
    × (only_retried (forward limited_always (record plain { pin = some "work" }) siblings).asked
        ≡ true)
forward-pinned_example =
    forward-pinned limited_always (record plain { pin = some "work" }) siblings "work" refl

-- Both windows are rejected, and the week is over later.
abbrev spent_headers : Map String
spent_headers =
    ("anthropic-ratelimit-unified-5h-reset", "9000")
    ∷ ("anthropic-ratelimit-unified-5h-status", "rejected")
    ∷ ("anthropic-ratelimit-unified-7d-reset", "20000")
    ∷ ("anthropic-ratelimit-unified-7d-status", "rejected")
    ∷ []

quota_hold_secs-covers_example : 9000 ≤ 5000 + quota_hold_secs spent_headers (pos 60) (pos 5000)
unfolding rejected_reset lookup trim trim_start is_whitespace parse_i64 parse_digits Option.bind
quota_hold_secs-covers_example =
    quota_hold_secs-covers spent_headers (pos 60) 5000 9000 five_hours refl refl
