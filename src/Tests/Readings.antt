-- ===== src/Tests/Readings.antt =====
-- Witnesses for models, quotas and texts.
use corrall.Prelude.{ℕ, ◌≡◌, ◌≢◌, refl, ◌↔◌, true, false, [], ◌∷◌, some, String}
use corrall.Prelude.Int.{ℤ, pos}
use corrall.Prelude.Bytes.{Bytes, codes}
use corrall.Prelude.Maps.{Map}
use corrall.Model.{glob_matches}
use corrall.Prelude.{Option}
use corrall.Prelude.Json.{Json, obj, arr, str, nil, cons, field, end}
use corrall.Model.Glob.{Matches, glob_matches_iff}
use corrall.Quota.{clear_expired, apply_usage, same_window}
use corrall.Quota.Expiry.{IsFresh, clear_expired-IsFresh}
use corrall.Quota.Usage.{Reading, held, apply_usage-not_lowered}
use corrall.Security.{ct_eq, safe_text}
use corrall.Security.Keys.{IsSafe, ct_eq_iff, safe_text-IsSafe}
use corrall.Tests.Fixtures.{fixed, lt_irrefl, read_at, used_quota, weekly_payload}

abbrev opus_glob : Bytes
opus_glob = codes "claude-opus-*"

abbrev opus_name : Bytes
opus_name = codes "claude-opus-4"

glob_matches_iff_example : (glob_matches opus_glob opus_name ≡ true) ↔ Matches opus_glob opus_name
glob_matches_iff_example = glob_matches_iff opus_glob opus_name

abbrev threshold : String → ℕ
threshold key = 9800

abbrev late : ℤ
late = pos 2000000

clear_expired-IsFresh_example :
    IsFresh late (pos 600000) threshold (clear_expired late (pos 600000) threshold used_quota).0
clear_expired-IsFresh_example = clear_expired-IsFresh late (pos 600000) threshold used_quota

abbrev response : Map String
response =
    ("anthropic-ratelimit-unified-5h-utilization", "1")
    ∷ ("anthropic-ratelimit-unified-5h-reset", "3000")
    ∷ []

apply_usage-not_lowered_example :
    (v : ℕ) × ((held Reading.seven_day
        (apply_usage (weekly_payload 1000 90000000) late used_quota)).utilization
      ≡ some v)
    × (fixed.lt v 3000 ≡ false)
unfolding same_window
apply_usage-not_lowered_example =
    apply_usage-not_lowered lt_irrefl (weekly_payload 1000 90000000) late used_quota
      Reading.seven_day (read_at 1000 90000000 0) 3000 refl refl refl

abbrev secret : Bytes
secret = codes "0123456789abcdef"

ct_eq_iff_example :
    (ct_eq (codes "0123456789") secret ≡ true)
    ↔ ((codes "0123456789" ≡ secret) × (codes "0123456789" ≢ []))
ct_eq_iff_example = ct_eq_iff (codes "0123456789") secret

abbrev colored : Bytes
colored = 27 ∷ codes "[31m alert"

safe_text-IsSafe_example : IsSafe 8 (safe_text colored 8)
safe_text-IsSafe_example = safe_text-IsSafe colored 8

-- A request with a plain tool and an advisor.
abbrev plain_tool : Json ℕ
plain_tool = obj (field "type" (str "bash") end)

abbrev advisor_tool : Json ℕ
advisor_tool = obj (field "type" (str "Advisor_2026") (field "model" (str "claude-opus-4") end))

abbrev tools_given : Json ℕ
tools_given = arr (cons plain_tool (cons advisor_tool nil))

abbrev request_json : Json ℕ
request_json = obj (field "model" (str "claude-sonnet-4") (field "tools" tools_given end))

abbrev parse_request : Bytes → Option (Json ℕ)
parse_request body = some request_json
