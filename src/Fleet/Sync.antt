-- ===== src/Fleet/Sync.antt =====
-- src/manager.rs: `sync_config`, which takes a reloaded config over into a running fleet. The files
-- of linked accounts are handed in, and so are the uuids of new entries.
pub mod References
pub mod Learned
use mathlib.Core.Option
use corrall.Prelude.{
  ℕ, ◌+◌, String, Bool, true, false, not, ◌&&◌, ◌||◌, List, [], ◌∷◌, ◌++◌, map, Option, none, some,
  keep, any, if◌then◌else◌, ◌==◌,
}
use corrall.Prelude.Int.{ℤ, pos, leb_ℤ}
use corrall.Prelude.Float.{Float}
use corrall.Prelude.Maps.{Map, lookup}
use corrall.Config.{AccountConfig, ExpiryRouting}
use corrall.Config.Pools.{Config, PoolConfig, pool_or_default}
use corrall.Quota.{or_else}
use corrall.Session.{member, remap_accounts}
use corrall.Fleet.{Account, Fleet, Status, has_id, is_error}
use corrall.Fleet.Eligibility.{is_none}
use corrall.Fleet.Probes.{same_text}
use corrall.Fleet.Logins.{Files, apply_credentials, from_config, linked_path}
use corrall.Fleet.Tokens.Linked.{differs, add_to}

abbrev pub or_zero : Option ℤ → ℤ
or_zero none = pos 0
or_zero (some t) = t

-- What the loop over the entries makes: the next accounts, the ids to check again, how many were
-- added.
pub record Synced (F : Type 0) : Type 0 where
  pub next : List (Account F)
  pub recheck : List String
  pub added : ℕ

abbrev pub live : List String → Option String → Option String
live ids none = none
live ids (some id) = if member id ids then some id else none

abbrev pub add_all : List String → List String → List String
add_all [] ids = ids
add_all (id ∷ new) ids = add_all new (add_to id ids)

module _ {F : Type 0} where
  -- What the entry sets of an account that runs on.
  abbrev pub take_settings : AccountConfig F → Account F → Account F
  take_settings c a = record a {
    name = c.name;
    priority = c.priority;
    disabled = c.disabled;
    upstream = c.upstream;
    model_map = Option.get_or c.model_map [];
    strip_request_fields = c.strip_request_fields;
    max_usage = c.max_usage;
    account_uuid = or_else c.account_uuid a.account_uuid;
    org_uuid = or_else c.org_uuid a.org_uuid;
    org_name = or_else c.org_name a.org_name;
    email = or_else c.email a.email;
    account_id = or_else c.account_id a.account_id;
    import_from = linked_path c;
  }

  abbrev pub lift_error : Account F → Account F
  lift_error a =
      if is_error a.status then record a { status = Status.active; error_message = none } else a

  -- Whether the credential on disk is taken: it is another one, and no older than the one held.
  abbrev pub is_newer : Account F → Account F → Bool
  is_newer fresh a =
      differs fresh a
      && (is_none a.credential || leb_ℤ (or_zero a.expires_at) (or_zero fresh.expires_at))

  abbrev pub take_credential : Account F → Account F → Account F
  take_credential fresh a = lift_error (record a {
    credential = fresh.credential;
    refresh_token = fresh.refresh_token;
    expires_at = fresh.expires_at;
    refresh_expires_at = fresh.refresh_expires_at;
  })

  -- Re-enabling an account lifts an error that is not about a dead refresh token.
  abbrev pub re_enable : Bool → Account F → Account F
  re_enable re_enabled a = if re_enabled && is_none a.dead_refresh_token then lift_error a else a

  -- An account that runs on, and whether its credential was replaced.
  unfoldable pub renewed : Files → AccountConfig F → Account F → Account F × Bool
  unfolding apply_credentials linked_path
  renewed files c a =
      let set = take_settings c a in
      let fresh = apply_credentials files c set in
      let newer = is_newer fresh set in
      (
        re_enable (a.disabled && not c.disabled) (if newer then take_credential fresh set else set),
        newer,
      )

  -- `position` and `remove`: the first account of the id, and the others.
  unfoldable pub take_out : String → List (Account F) → Option (Account F × List (Account F))
  take_out id [] = none
  take_out id (a ∷ v) =
      let rest = take_out id v in
      if a.id == id then some (a, v) else elim rest [ none ↦ none | some (b, w) ↦ some (b, a ∷ w) ]

  abbrev pub nothing_synced : Synced F
  nothing_synced = record { next = []; recheck = []; added = 0 }

  abbrev pub put_renewed : Account F × Bool → Synced F → Synced F
  put_renewed (a, newer) s = record s {
    next = a ∷ s.next;
    recheck = if newer then a.id ∷ s.recheck else s.recheck;
  }

  -- An entry without a usable credential is skipped.
  abbrev pub put_new : Account F → Synced F → Synced F
  put_new a s =
      if is_none a.credential then s else record s { next = a ∷ s.next; added = s.added + 1 }

  unfoldable pub sync_accounts :
      Files → (ℕ → String) → List (AccountConfig F) → ℕ → List (Account F) → Synced F
  unfolding renewed take_out from_config
  sync_accounts files uuid [] i old = nothing_synced
  sync_accounts files uuid (c ∷ entries) i old = elim (take_out (Option.get_or c.id "") old) [
    | some (a, others) ↦
        put_renewed (renewed files c a) (sync_accounts files uuid entries (i + 1) others)
    | none ↦ put_new (from_config files (uuid i) c) (sync_accounts files uuid entries (i + 1) old)
  ]

  abbrev pub forget_baselines : ExpiryRouting F → List (Account F) → List (Account F)
  forget_baselines e v =
      if not e.enabled || not e.preempt
      then map (λ (a : Account F). record a { rollover_baseline = [] }) v
      else v

  abbrev pub account_ids : List (Account F) → List String
  account_ids v = map (λ (a : Account F). a.id) v

  -- References to accounts that are gone are dropped.
  abbrev pub drop_dangling : List String → Fleet F → Fleet F
  drop_dangling ids f = record f {
    sessions = remap_accounts ids f.sessions;
    route_pins = keep (λ (e : String × String). member e.1 ids) f.route_pins;
    current = live ids f.current;
  }

module _ {F : Type 0} ⦃fl : Float F⦄ where
  -- `Manager::sync_config`: the fleet, and the number of accounts added.
  unfoldable pub sync_config : Files → (ℕ → String) → Config F → String → Fleet F → Fleet F × ℕ
  unfolding pool_or_default sync_accounts
  sync_config files uuid cfg pool f =
      let p = pool_or_default (some pool) cfg in
      let synced =
        sync_accounts files uuid p.accounts 0 (forget_baselines p.expiry_routing f.accounts) in
      (
        drop_dangling (account_ids synced.next) (record f {
          pool = pool;
          threshold = p.switch_threshold;
          routes = p.routes;
          blocked_models = p.blocked_models;
          storm = p.storm_ramp;
          distribute_sessions = p.distribute_sessions;
          hold_seconds = p.hold_seconds;
          default_upstream = cfg.upstream;
          expiry = p.expiry_routing;
          soonest_reset = p.soonest_reset;
          warmup_secs = cfg.warmup_seconds;
          accounts = synced.next;
          probe = record f.probe {
            interval_secs = p.quota_probe_seconds;
            recheck = add_all synced.recheck f.probe.recheck;
          };
        }),
        synced.added,
      )
