-- ===== src/Fleet/Logins.antt =====
-- src/manager.rs: where an account's credentials come from: the config entry, or the file that
-- another program writes. What reading and parsing such a file gives is handed in as `Files`.
use mathlib.Core.Option
use corrall.Prelude.{String, false, not, ◌&&◌, ◌||◌, Option, none, some, [], if◌then◌else◌, ◌==◌}
use corrall.Prelude.Int.{ℤ}
use corrall.Config.{AccountConfig, AccountType, is_codex}
use corrall.Quota.{no_quota, or_else}
use corrall.Fleet.{Account, Status, Provider, is_oauth}
use corrall.Fleet.Eligibility.{is_none}
use corrall.Fleet.Tallies.{no_usage}

-- Claude Code's credentials.
pub record ImportedCredentials : Type 0 where
  pub access_token : Option String
  pub refresh_token : Option String
  pub expires_at : Option ℤ
  pub refresh_token_expires_at : Option ℤ
  pub subscription_type : Option String
  pub rate_limit_tier : Option String

-- The Codex CLI's.
pub record CodexCredentials : Type 0 where
  pub access_token : Option String
  pub refresh_token : Option String
  pub account_id : Option String
  pub email : Option String
  pub plan_type : Option String
  pub expires_at : Option ℤ

-- `oauth::import_credentials` and `codex::import_credentials`, where `none` is an error.
pub record Files : Type 0 where
  pub claude : String → Option ImportedCredentials
  pub codex : String → Option CodexCredentials

abbrev pub default_credentials_path : String
default_credentials_path = "~/.codex/auth.json"

-- `filter(|t| !t.is_empty())`
abbrev pub nonempty : Option String → Option String
nonempty none = none
nonempty (some s) = if s == "" then none else some s

module _ {F : Type 0} where
  unfoldable pub linked_path : AccountConfig F → Option String
  unfolding is_codex
  linked_path c =
      if is_oauth c.kind
      then if not (is_none c.import_from) || not (is_codex c)
        then c.import_from
        else if is_none (nonempty c.access_token)
        then some default_credentials_path
        else none
      else none

  abbrev pub take_stored : AccountConfig F → Account F → Account F
  take_stored c a = record a {
    credential = nonempty c.access_token;
    refresh_token = nonempty c.refresh_token;
    expires_at = c.expires_at;
    refresh_expires_at = c.refresh_token_expires_at;
  }

  -- A file that cannot be read, or has no access token, changes nothing.
  abbrev pub take_claude : Option ImportedCredentials → Account F → Account F
  take_claude none a = a
  take_claude (some ic) a = if is_none (nonempty ic.access_token) then a else record a {
    credential = ic.access_token;
    refresh_token = ic.refresh_token;
    expires_at = ic.expires_at;
    refresh_expires_at = ic.refresh_token_expires_at;
    subscription_type = or_else a.subscription_type ic.subscription_type;
  }

  abbrev pub take_codex : Option CodexCredentials → Account F → Account F
  take_codex none a = a
  take_codex (some cc) a = if is_none (nonempty cc.access_token) then a else record a {
    credential = cc.access_token;
    refresh_token = cc.refresh_token;
    expires_at = cc.expires_at;
    account_id = or_else a.account_id cc.account_id;
    email = or_else a.email cc.email;
    plan_type = or_else a.plan_type cc.plan_type;
  }

  abbrev pub apply_oauth : Provider → Files → AccountConfig F → Account F → Account F
  apply_oauth Provider.codex files c a =
      if not (is_none (nonempty c.access_token)) && is_none c.import_from
      then take_stored c a
      else take_codex (files.codex (Option.get_or c.import_from default_credentials_path)) a
  apply_oauth Provider.anthropic files c a = elim c.import_from [
    | some path ↦ take_claude (files.claude path) a
    | none ↦ take_stored c a
  ]

  abbrev pub apply_by_kind : AccountType → Files → AccountConfig F → Account F → Account F
  apply_by_kind AccountType.apikey files c a = record a { credential = nonempty c.api_key }
  apply_by_kind AccountType.oauth files c a = apply_oauth a.provider files c a

  -- `Account::apply_credentials`
  unfoldable pub apply_credentials : Files → AccountConfig F → Account F → Account F
  apply_credentials files c a = apply_by_kind a.kind files c a

  -- `Account::from_config`; `fresh_id` is a new uuid.
  unfoldable pub from_config : Files → String → AccountConfig F → Account F
  unfolding linked_path apply_credentials is_codex
  from_config files fresh_id c = apply_credentials files c (record {
    id = Option.get_or c.id fresh_id;
    name = c.name;
    kind = c.kind;
    provider = if is_codex c then Provider.codex else Provider.anthropic;
    account_id = c.account_id;
    plan_type = c.plan_type;
    rollover_baseline = [];
    account_uuid = c.account_uuid;
    org_uuid = c.org_uuid;
    org_name = c.org_name;
    email = c.email;
    priority = c.priority;
    disabled = c.disabled;
    credential = none;
    refresh_token = none;
    expires_at = none;
    refresh_expires_at = none;
    login_warned_for = none;
    import_from = linked_path c;
    upstream = c.upstream;
    model_map = Option.get_or c.model_map [];
    strip_request_fields = c.strip_request_fields;
    max_usage = c.max_usage;
    rate_limit_tier = c.rate_limit_tier;
    seat_tier = c.seat_tier;
    subscription_type = c.subscription_type;
    quota = no_quota;
    status = Status.active;
    error_message = none;
    rate_limited_until = none;
    quota_hold = false;
    throttled_at = none;
    headerless_429_at = none;
    last_probe_at = none;
    entitlement_denied_until = none;
    dead_refresh_token = none;
    last_refresh_at = none;
    ramp_started_at = none;
    in_flight = 0;
    open_requests = 0;
    usage = no_usage;
    probing = false;
    requalify = false;
  })
