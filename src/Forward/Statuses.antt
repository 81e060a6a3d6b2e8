-- ===== src/Forward/Statuses.antt =====
-- src/proxy/forward.rs: what the status of a response makes of an attempt. The parser of dates in
-- `retry-after` is an argument, and so is the body where it is JSON.
pub mod Holds
use Prim.Native.String.{◌++◌}
use mathlib.Core.Option
use corrall.Prelude.{
  ℕ, ◌*◌, String, Bool, true, false, not, ◌&&◌, ◌||◌, List, [], ◌∷◌, Option, none, some, leb, ltb,
  eqb, if◌then◌else◌, ◌==◌,
}
use corrall.Prelude.Int.{ℤ, pos, pos_part, ltb_ℤ, leb_ℤ, sub_i64}
use corrall.Prelude.Bytes.{Bytes, codes, trim, parse_i64}
use corrall.Prelude.Maps.{Map, lookup}
use corrall.Prelude.Json.{Json, get, text_at}
use corrall.Config.{AccountType, is_text}
use corrall.Fleet.{Fleet, Selected, is_oauth}
use corrall.Fleet.Eligibility.{is_none}
use corrall.Fleet.Health.{
  mark_quota_exhausted, mark_rate_limited, note_headerless_429, mark_error, mark_entitlement_denied,
}
use corrall.Fleet.Logins.{Files}
use corrall.Fleet.Tokens.{OnRefreshFail, Turn, Ended}
use corrall.Fleet.Tokens.Linked.{ensure_token_fresh, linked_source}
use corrall.Forward.{Attempt, done, reject, failover, retry_same, rate_limited_hop, ReqInfo}

abbrev pub inline_retry_after_max_seconds : ℕ
inline_retry_after_max_seconds = 15

abbrev pub headerless_429_pause_seconds : ℕ
headerless_429_pause_seconds = 5

-- The windows that a response may say are rejected.
pub data RejectedWindow : Type 0 where
  five_hours seven_days fable_week : RejectedWindow

abbrev pub header_name : RejectedWindow → String
header_name five_hours = "5h"
header_name seven_days = "7d"
header_name fable_week = "7d_oi"

abbrev pub is_rejected : Map String → RejectedWindow → Bool
is_rejected rl b =
    is_text "rejected" (lookup ("anthropic-ratelimit-unified-" ++ (header_name b ++ "-status")) rl)

abbrev pub reset_header : RejectedWindow → String
reset_header b = "anthropic-ratelimit-unified-" ++ (header_name b ++ "-reset")

-- The reset of a window that is rejected.
unfoldable pub rejected_reset : Map String → RejectedWindow → Option ℤ
rejected_reset rl b =
    if is_rejected rl b
    then Option.bind (lookup (reset_header b) rl) (λ v. parse_i64 (trim (codes v)))
    else none

-- `Iterator::max` over two values that may be missing.
abbrev pub latest : Option ℤ → Option ℤ → Option ℤ
latest none o = o
latest (some a) none = some a
latest (some a) (some b) = if leb_ℤ a b then some b else some a

-- `i64::clamp` between two positive bounds.
abbrev pub clamp_secs : ℕ → ℕ → ℤ → ℕ
clamp_secs low high z =
    if ltb_ℤ z (pos low) then low else if ltb_ℤ (pos high) z then high else pos_part z

-- The hold of an account whose quota was rejected, in seconds.
unfoldable pub quota_hold_secs : Map String → ℤ → ℤ → ℕ
unfolding rejected_reset
quota_hold_secs rl retry_after now_secs =
    elim (latest (rejected_reset rl five_hours) (rejected_reset rl seven_days)) [
      | none ↦ clamp_secs 1 3600 retry_after
      | some r ↦
          if ltb_ℤ (pos 0) (sub_i64 r now_secs)
          then pos_part (sub_i64 r now_secs)
          else clamp_secs 1 3600 retry_after
    ]

-- Seconds, or a date: `seconds_until` tells how far off a date is.
unfoldable pub parse_retry_after : (Bytes → Option ℤ) → String → Option ℤ
parse_retry_after seconds_until v = elim (parse_i64 (trim (codes v))) [
  | some secs ↦ some secs
  | none ↦
      Option.map (λ (s : ℤ). if ltb_ℤ s (pos 1) then pos 1 else s) (seconds_until (trim (codes v)))
]

-- What the proxy gives the client, short of the body.
pub data Relay : Type 0 where
  relayed : (status : ℕ) → Relay
  upstream_wide forbidden lost timed_out unreadable : Relay

-- A response: its status, its rate-limit headers, its `retry-after`, its body as JSON.
pub record Received (F : Type 0) : Type 0 where
  pub status : ℕ
  pub limits : Map String
  pub retry_after : Option String
  pub body : Option (Json F)

-- What an attempt reads of its surroundings.
pub record Setting (F : Type 0) : Type 0 where
  pub files : Files
  pub turn : Turn F
  pub seconds_until : Bytes → Option ℤ
  pub absorb_max : ℕ
  pub hold_ms : ℕ
  pub now : ℤ
  pub now_secs : ℤ

abbrev pub pause_secs : Option ℤ → ℕ
pause_secs none = headerless_429_pause_seconds
pause_secs (some v) = clamp_secs 1 300 v

abbrev pub rejected_token : Option (String × String) → String
rejected_token none = "upstream rejected the token (401)"
rejected_token (some (path, owner)) =
    "upstream rejected the token in "
    ++ (path ++ (" (401); waiting for " ++ (owner ++ " to refresh it")))

-- A token that is not the one that was refused.
abbrev pub is_new_token : String → Option String → Bool
is_new_token before none = false
is_new_token before (some after) = not (after == before)

module _ {F : Type 0} where
  -- Wait for the same account if the pause is short or the request may be held, else hop.
  abbrev pub pause_or_hop : Setting F → ℕ → Attempt Relay
  pause_or_hop e ra =
      if leb ra inline_retry_after_max_seconds || (leb ra e.absorb_max && ltb 0 e.hold_ms)
      then retry_same ra
      else rate_limited_hop ra

  abbrev pub on_pace_limit :
      Setting F → String → Option ℤ → Fleet F × Bool → Fleet F × Attempt Relay
  on_pace_limit e id parsed (f, wide) =
      if wide
      then (f, reject upstream_wide)
      else (mark_rate_limited id (pause_secs parsed) e.now f, pause_or_hop e (pause_secs parsed))

  -- 429: a spent quota, or a limit of the pace.
  unfoldable pub on_429 : Setting F → String → Received F → Fleet F → Fleet F × Attempt Relay
  unfolding quota_hold_secs parse_retry_after
  on_429 e id r f =
      let parsed = Option.bind r.retry_after (parse_retry_after e.seconds_until) in
      let general = is_rejected r.limits five_hours || is_rejected r.limits seven_days in
      if general
      then (
        mark_quota_exhausted id
            (quota_hold_secs r.limits (Option.get_or parsed (pos 60)) e.now_secs) e.now f,
        failover false,
      )
      else if is_rejected r.limits fable_week
      then (f, failover false)
      else on_pace_limit e id parsed
          (if is_none parsed then note_headerless_429 id e.now f else (f, false))

  -- 401: a login is refreshed or read again, once; a key is at its end.
  unfoldable pub on_401 : Setting F → Selected → Fleet F → Fleet F × Attempt Relay
  unfolding ensure_token_fresh linked_source
  on_401 e s f =
      let linked = linked_source s.id f in
      let ended = ensure_token_fresh e.files s.id true OnRefreshFail.mark_dead e.turn f in
      if not (is_oauth s.kind)
      then (mark_error s.id "upstream rejected the API key (401)" f, failover false)
      else if is_new_token s.credential ended.token
      then (ended.fleet, retry_same 0)
      else (mark_error s.id (rejected_token linked) ended.fleet, failover false)

  -- `/error/details/error_code` of the body.
  abbrev pub is_entitlement_body : Option (Json F) → Bool
  is_entitlement_body body = is_text "oauth_not_allowed_for_organization" (
      Option.bind body (λ v.
        Option.bind (get "error" v) (λ w. Option.bind (get "details" w) (text_at "error_code"))))

  unfoldable pub on_403 : Setting F → Bool → String → Received F → Fleet F → Fleet F × Attempt Relay
  on_403 e pinned id r f =
      if is_entitlement_body r.body
      then (mark_entitlement_denied id e.now f, failover false)
      else if pinned
      then (f, done forbidden)
      else (f, failover false)

  -- The match on the status, up to the relaying of a body.
  unfoldable pub on_status :
      Setting F → ReqInfo → Selected → Received F → Fleet F → Fleet F × Attempt Relay
  unfolding on_429 on_401 on_403
  on_status e info s r f =
      if eqb r.status 429
      then on_429 e s.id r f
      else if eqb r.status 401
      then on_401 e s f
      else if eqb r.status 403
      then on_403 e (not (is_none info.pin)) s.id r f
      else if leb 500 r.status && leb r.status 599
      then (f, if is_none info.pin then failover true else done (relayed r.status))
      else (f, done (relayed r.status))
