-- ===== src/Fleet.antt =====
-- src/manager.rs: the state of the fleet. The `&mut self` methods of `Fleet`, and those of `Manager`
-- that lock it, are functions of the children that return the new fleet. `now_ms()` is an argument,
-- and lines for the log are left out.
pub mod Upstream
pub mod Eligibility
pub mod Ranking
pub mod Cursor
pub mod Bookkeeping
pub mod Select
pub mod Selection
pub mod Admission
pub mod Tallies
pub mod Health
pub mod Probes
pub mod Responses
pub mod Logins
pub mod Tokens
pub mod Sync
use mathlib.Core.Option
use corrall.Prelude.{
  ℕ, ◌*◌, ◌+◌, String, Bool, true, false, List, [], ◌∷◌, map, Option, none, some, find,
  if◌then◌else◌, ◌==◌, ◌≡◌, refl, arith,
}
use corrall.Prelude.Int.{ℤ}
use corrall.Prelude.Bytes.{Bytes, codes, lowercase}
use corrall.Prelude.Maps.{Map}
use corrall.Config.{Threshold, AccountType, ExpiryRouting, RouteConfig, StormRamp}
use corrall.Quota.{Quota}
use corrall.Session.{SessionTracker}

pub data Status : Type 0 where
  active throttled error : Status

pub data Provider : Type 0 where
  anthropic codex : Provider

pub record Usage : Type 0 where
  pub total_requests : ℕ
  pub failed_requests : ℕ
  pub last_used : Option String
  pub input_tokens : ℤ
  pub output_tokens : ℤ
  pub cache_read_tokens : ℤ
  pub cache_creation_tokens : ℤ

-- `open_requests` is the source's `open`.
pub record Account (F : Type 0) : Type 0 where
  pub id : String
  pub name : String
  pub kind : AccountType
  pub provider : Provider
  pub account_id : Option String
  pub plan_type : Option String
  pub rollover_baseline : Map ℤ
  pub account_uuid : Option String
  pub org_uuid : Option String
  pub org_name : Option String
  pub email : Option String
  pub priority : ℤ
  pub disabled : Bool
  pub credential : Option String
  pub refresh_token : Option String
  pub expires_at : Option ℤ
  pub refresh_expires_at : Option ℤ
  pub login_warned_for : Option ℤ
  pub import_from : Option String
  pub upstream : Option String
  pub model_map : Map String
  pub strip_request_fields : List String
  pub max_usage : Option (Threshold F)
  pub rate_limit_tier : Option String
  pub seat_tier : Option String
  pub subscription_type : Option String
  pub quota : Quota F
  pub status : Status
  pub error_message : Option String
  pub rate_limited_until : Option ℤ
  pub quota_hold : Bool
  pub throttled_at : Option ℤ
  pub headerless_429_at : Option ℤ
  pub last_probe_at : Option ℤ
  pub entitlement_denied_until : Option ℤ
  pub dead_refresh_token : Option String
  pub last_refresh_at : Option ℤ
  pub ramp_started_at : Option ℤ
  pub in_flight : ℕ
  pub open_requests : ℕ
  pub usage : Usage
  pub probing : Bool
  pub requalify : Bool

pub record ProbeAccount : Type 0 where
  pub status : String
  pub started_at : Option ℤ
  pub finished_at : Option ℤ
  pub duration_ms : Option ℤ
  pub error : Option String

-- `recheck` is a set: the accounts whose credential was replaced since the prober last asked.
pub record ProbeState : Type 0 where
  pub interval_secs : ℕ
  pub running : Bool
  pub last_run_started_at : Option ℤ
  pub last_run_finished_at : Option ℤ
  pub next_run_at : Option ℤ
  pub accounts : Map ProbeAccount
  pub recheck : List String

-- What the forwarder needs from a selected account.
pub record Selected : Type 0 where
  pub id : String
  pub name : String
  pub kind : AccountType
  pub provider : Provider
  pub account_id : Option String
  pub credential : String
  pub account_uuid : Option String
  pub upstream : String
  pub model_map : Map String
  pub strip_request_fields : List String

pub record SelectRequest : Type 0 where
  pub model : Option Bytes
  pub advisor_model : Option Bytes
  pub session_id : Option String
  pub pin : Option String
  pub exclude : List String
  pub allow_probe : Bool
  pub provider : Option Provider

-- The mutexes that serialise token refreshes are not part of the state.
pub record Fleet (F : Type 0) : Type 0 where
  pub pool : String
  pub accounts : List (Account F)
  pub current : Option String
  pub threshold : Threshold F
  pub routes : List RouteConfig
  pub blocked_models : List Bytes
  pub storm : StormRamp
  pub distribute_sessions : Bool
  pub hold_seconds : ℕ
  pub default_upstream : String
  pub route_pins : Map String
  pub sessions : SessionTracker
  pub started_at : ℤ
  pub client_usage : Map Usage
  pub dimension_usage : Map (Map Usage)
  pub expiry : ExpiryRouting F
  pub soonest_reset : Bool
  pub probe : ProbeState
  pub warmup_secs : ℕ
  pub update_available : Option String
  pub update_checked_at : Option ℤ

abbrev pub is_provider : Provider → Provider → Bool
is_provider Provider.anthropic Provider.anthropic = true
is_provider Provider.codex Provider.codex = true
is_provider _ _ = false

abbrev pub is_error : Status → Bool
is_error Status.error = true
is_error _ = false

abbrev pub is_throttled : Status → Bool
is_throttled Status.throttled = true
is_throttled _ = false

abbrev pub is_oauth : AccountType → Bool
is_oauth AccountType.oauth = true
is_oauth AccountType.apikey = false

-- What `iter_mut().find(p)` finds is changed: the first one that passes.
unfoldable pub modify_first {ℓ} : {A : Type ℓ} → (A → Bool) → (A → A) → List A → List A
modify_first p f [] = []
modify_first p f (x ∷ xs) = let rest = modify_first p f xs in if p x then f x ∷ xs else x ∷ rest

module _ {F : Type 0} where
  abbrev pub has_id : String → Account F → Bool
  has_id id a = a.id == id

  -- `Fleet::account`
  unfoldable pub account : Fleet F → String → Option (Account F)
  account f id = find (has_id id) f.accounts

  -- `Fleet::account_mut`, with a change to what it finds.
  unfoldable pub account_mut : String → (Account F → Account F) → Fleet F → Fleet F
  unfolding modify_first
  account_mut id change f = record f { accounts = modify_first (has_id id) change f.accounts }

  find-modify_first :
      (p : Account F → Bool) (change : Account F → Account F) (v : List (Account F))
      → ((a : Account F) → p a ≡ true → p (change a) ≡ true)
      → find p (modify_first p change v) ≡ Option.map change (find p v)
  unfolding modify_first
  find-modify_first p change [] h = refl
  find-modify_first p change (a ∷ v) h = ground (arith, find-modify_first p change v h, h a)

  -- A change that keeps the id is seen by the next look at the account.
  pub account-account_mut :
      (id : String) (change : Account F → Account F) (f : Fleet F)
      → ((a : Account F) → (change a).id ≡ a.id)
      → account (account_mut id change f) id ≡ Option.map change (account f id)
  unfolding account account_mut
  account-account_mut id change f h =
      find-modify_first (has_id id) change f.accounts (λ a e. rw (h a) e)
