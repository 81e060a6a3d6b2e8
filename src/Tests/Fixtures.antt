-- ===== src/Tests/Fixtures.antt =====
-- A decimal fixed-point number in place of `f64`, a platform that knows one host, and a small fleet.
use mathlib.Core.Option
use corrall.Prelude.{
  ℕ, ◌+◌, ◌-◌, ◌*◌, ◌/◌, ◌^◌, String, ◌≡◌, true, false, List, [], ◌∷◌, none, some, ltb, leb,
  if◌then◌else◌, ◌==◌, arith,
}
use corrall.Prelude.Int.{pos, pos_part}
use corrall.Prelude.Bytes.{parse_usize}
use corrall.Prelude.Float.{Float}
use corrall.Config.{AccountType, StormRamp, single}
use corrall.Quota.{Bucket, Quota, UsagePayload, no_quota}
use corrall.Session.{Session, SessionTracker, new, new_session}
use corrall.Fleet.{Account, Fleet, Status, Provider, SelectRequest, Selected}
use corrall.Fleet.Tallies.{no_usage}
use corrall.Fleet.Upstream.{Platform}

-- Four decimal places, from 0 up.
instance abbrev pub fixed : Float ℕ
fixed = record {
  ge = λ a b. leb b a;
  lt = ltb;
  fmax = λ a b. if ltb a b then b else a;
  fmin = λ a b. if ltb a b then a else b;
  add = λ a b. a + b;
  sub = λ a b. a - b;
  mul = λ a b. (a * b) / 10000;
  div = λ a b. (a * 10000) / b;
  of_int = λ z. pos_part z * 10000;
  to_int = λ a. pos (a / 10000);
  decimal = λ m k. (m * 10000) / (10 ^ k);
  is_finite = λ a. true;
  infinity = 10 ^ 30;
  parse = λ v. Option.map (λ n. n * 10000) (parse_usize v);
}

instance abbrev pub site : Platform
site = record {
  host_of = λ u. if u == "https://api.anthropic.com" then some "api.anthropic.com" else none;
  parse_ip = λ b. none;
  parse_iso_ms = λ t. none;
  family_stale_ms = pos 600000;
}

-- `lt` is irreflexive, and the greater of two numbers is below neither.
pub lt_irrefl : (x : ℕ) → fixed.lt x x ≡ false
lt_irrefl x = ground arith

pub fmax_bounds :
    (a b : ℕ)
    → fixed.ge a a ≡ true
    → fixed.ge b b ≡ true
    → (fixed.ge (fixed.fmax a b) a ≡ true) × (fixed.ge (fixed.fmax a b) b ≡ true)
fmax_bounds a b h h' = ground arith

abbrev pub read_at : ℕ → ℕ → ℕ → Bucket ℕ
read_at utilization reset seen = record {
  utilization = some utilization;
  reset_at = some (pos reset);
  seen_at = some (pos seen);
}

-- The 5h window has reset at 2,000,000, and the reading of the family is old and spent.
abbrev pub used_quota : Quota ℕ
used_quota = record no_quota {
  unified5h = read_at 4000 900000 1000;
  unified7d = read_at 3000 90000000 1000;
  unified7d_fable = read_at 9900 90000000 1000;
}

abbrev pub weekly_payload : ℕ → ℕ → UsagePayload ℕ
weekly_payload utilization reset = record {
  five_hour = none;
  seven_day = some (read_at utilization reset 0);
  seven_day_sonnet = none;
  seven_day_fable = none;
  scoped_weekly = [];
  scoped_listed = false;
  spend = none;
}

abbrev pub account_named : String → Quota ℕ → Account ℕ
account_named name q = record {
  id = name;
  name = name;
  kind = AccountType.apikey;
  provider = Provider.anthropic;
  account_id = none;
  plan_type = none;
  rollover_baseline = [];
  account_uuid = none;
  org_uuid = none;
  org_name = none;
  email = none;
  priority = pos 0;
  disabled = false;
  credential = some "token";
  refresh_token = none;
  expires_at = none;
  refresh_expires_at = none;
  login_warned_for = none;
  import_from = none;
  upstream = none;
  model_map = [];
  strip_request_fields = [];
  max_usage = none;
  rate_limit_tier = none;
  seat_tier = none;
  subscription_type = none;
  quota = q;
  status = Status.active;
  error_message = none;
  rate_limited_until = none;
  quota_hold = false;
  throttled_at = none;
  headerless_429_at = none;
  last_probe_at = none;
  entitlement_denied_until = none;
  dead_refresh_token = none;
  last_refresh_at = none;
  ramp_started_at = none;
  in_flight = 0;
  open_requests = 0;
  usage = no_usage;
  probing = false;
  requalify = false;
}

abbrev pub default_ramp : StormRamp
default_ramp = record {
  enabled = true;
  start_conc = 2;
  step_conc = 2;
  step_ms = 1000;
  window_ms = 10000;
}

abbrev pub fleet_of : List (Account ℕ) → Fleet ℕ
fleet_of accounts = record {
  pool = "default";
  accounts = accounts;
  current = none;
  threshold = single 9800;
  routes = [];
  blocked_models = [];
  storm = default_ramp;
  distribute_sessions = false;
  hold_seconds = 0;
  default_upstream = "https://api.anthropic.com";
  route_pins = [];
  sessions = new;
  started_at = pos 0;
  client_usage = [];
  dimension_usage = [];
  expiry = record { enabled = false; tolerance = 10000; preempt = false };
  soonest_reset = false;
  probe = record {
    interval_secs = 300;
    running = false;
    last_run_started_at = none;
    last_run_finished_at = none;
    next_run_at = none;
    accounts = [];
    recheck = [];
  };
  warmup_secs = 0;
  update_available = none;
  update_checked_at = none;
}

-- The first account has spent its week; the second has not.
abbrev pub two_accounts : Fleet ℕ
two_accounts = fleet_of (
    account_named "work" (record no_quota { unified7d = read_at 9900 90000000 1000 })
    ∷ account_named "home" used_quota
    ∷ [])

abbrev pub plain_request : SelectRequest
plain_request = record {
  model = none;
  advisor_model = none;
  session_id = none;
  pin = none;
  exclude = [];
  allow_probe = false;
  provider = none;
}

abbrev pub selected_as : String → Selected
selected_as name = record {
  id = name;
  name = name;
  kind = AccountType.apikey;
  provider = Provider.anthropic;
  account_id = none;
  credential = "token";
  account_uuid = none;
  upstream = "https://api.anthropic.com";
  model_map = [];
  strip_request_fields = [];
}

abbrev pub busy_session : Session
busy_session = record (new_session (pos 5)) { in_flight = 1 }

abbrev pub one_session : SessionTracker
one_session = record new { sessions = ("alpha", busy_session) ∷ [] }
