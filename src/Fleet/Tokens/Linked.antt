-- ===== src/Fleet/Tokens/Linked.antt =====
-- src/manager.rs: linked accounts, whose tokens another program refreshes. Their file is read again,
-- and their refresh token is never sent.
use mathlib.Core.Option
use Prim.Native.String.{◌++◌}
use corrall.Prelude.{
  ℕ, ◌*◌, String, Bool, true, false, not, ◌&&◌, ◌||◌, List, [], ◌∷◌, Option, none, some,
  if◌then◌else◌,
}
use corrall.Prelude.Int.{ℤ, pos, ltb_ℤ, leb_ℤ, older}
use corrall.Config.{AccountConfig, AccountType}
use corrall.Session.{member}
use corrall.Fleet.{Account, Fleet, Status, Provider, account, account_mut, is_error, is_oauth}
use corrall.Fleet.Eligibility.{is_none}
use corrall.Fleet.Probes.{same_text}
use corrall.Fleet.Logins.{Files, apply_credentials}
use corrall.Fleet.Tokens.{
  OnRefreshFail, Turn, Ended, unsent, is_expiring_soon, is_past, refresh_own,
}

abbrev pub login_expiry_warn_ms : ℕ
login_expiry_warn_ms = 5 * 24 * 3600 * 1000

abbrev pub cli_name : Provider → String
cli_name Provider.anthropic = "Claude Code"
cli_name Provider.codex = "the Codex CLI"

abbrev pub expired_message : String → String → String
expired_message owner path =
    owner ++ "'s login in " ++ path ++ " has expired; run " ++ owner ++ " there to refresh it"

-- Within five days of the hard expiry of a login.
abbrev pub ends_soon : ℤ → ℤ → Bool
ends_soon now e = ltb_ℤ now e && not (older e now login_expiry_warn_ms)

abbrev pub is_time : ℤ → Option ℤ → Bool
is_time e none = false
is_time e (some t) = leb_ℤ e t && leb_ℤ t e

abbrev pub add_to : String → List String → List String
add_to id ids = if member id ids then ids else id ∷ ids

module _ {F : Type 0} where
  -- `AccountConfig { import_from: Some(path), ..Default::default() }`
  abbrev pub entry_for : String → AccountConfig F
  entry_for path = record {
    id = none;
    name = "";
    kind = AccountType.oauth;
    account_uuid = none;
    org_uuid = none;
    org_name = none;
    email = none;
    priority = pos 0;
    disabled = false;
    access_token = none;
    refresh_token = none;
    expires_at = none;
    refresh_token_expires_at = none;
    api_key = none;
    import_from = some path;
    upstream = none;
    model_map = none;
    strip_request_fields = [];
    max_usage = none;
    rate_limit_tier = none;
    seat_tier = none;
    subscription_type = none;
    provider = none;
    account_id = none;
    plan_type = none;
  }

  abbrev pub differs : Account F → Account F → Bool
  differs fresh held =
      not (is_none fresh.credential)
      && (not (same_text fresh.credential held.credential)
          || not (same_text fresh.refresh_token held.refresh_token))

  abbrev pub take_login : Account F → Account F → Account F
  take_login fresh a = record a {
    credential = fresh.credential;
    refresh_token = fresh.refresh_token;
    expires_at = fresh.expires_at;
    refresh_expires_at = fresh.refresh_expires_at;
    dead_refresh_token = none;
    status = if is_error a.status then Status.active else a.status;
    error_message = if is_error a.status then none else a.error_message;
  }

  -- An account that comes back from an error is probed again.
  abbrev pub note_recheck : String → Account F → Fleet F → Fleet F
  note_recheck id a f =
      if is_error a.status
      then record f { probe = record f.probe { recheck = add_to id f.probe.recheck } }
      else f

  abbrev pub mark_expired : String → Account F → Account F
  mark_expired path a = record a {
    status = Status.error;
    error_message = some (expired_message (cli_name a.provider) path);
  }

  -- What was read is put in the fleet: the fleet, and the token to use.
  abbrev pub write_login :
      String → String → Bool → Bool → Account F → Account F → Fleet F → Fleet F × Option String
  write_login id path true expired fresh a f =
      (note_recheck id a (account_mut id (take_login fresh) f), fresh.credential)
  write_login id path false true fresh a f = (account_mut id (mark_expired path) f, none)
  write_login id path false false fresh a f = (f, a.credential)

  -- The file is read outside the lock, while other tasks may change the fleet.
  unfoldable pub reread :
      Files
      → (Fleet F → Fleet F)
      → String
      → String
      → ℤ
      → Account F
      → Fleet F
      → Fleet F × Option String
  unfolding apply_credentials account
  reread files others id path now held f =
      let fresh = apply_credentials files (entry_for path) held in
      let g = others f in
      elim (account g id) [
        | none ↦ (g, none)
        | some a ↦ write_login id path (differs fresh held) (is_past now fresh.expires_at) fresh a g
      ]

  unfoldable pub reread_linked :
      Files → (Fleet F → Fleet F) → String → String → Bool → ℤ → Fleet F → Fleet F × Option String
  unfolding reread account
  reread_linked files others id path force now f = elim (account f id) [
    | none ↦ (f, none)
    | some held ↦
        if not force && (not (is_error held.status) && not (is_expiring_soon now held.expires_at))
        then (f, held.credential)
        else reread files others id path now held f
  ]

  -- `Manager::linked_source`: the file, and who refreshes it.
  unfoldable pub linked_source : String → Fleet F → Option (String × String)
  unfolding account
  linked_source id f =
      Option.bind (account f id)
        (λ (a : Account F). Option.map (λ p. (p, cli_name a.provider)) a.import_from)

  abbrev pub link_of : Account F → Option String
  link_of a = if is_oauth a.kind then a.import_from else none

  unfoldable pub ensure_token_fresh :
      Files → String → Bool → OnRefreshFail → Turn F → Fleet F → Ended F
  unfolding account reread_linked refresh_own
  ensure_token_fresh files id force on_fail turn f = elim (Option.bind (account f id) link_of) [
    | some path ↦
        let (g, token) = reread_linked files turn.others_before id path force turn.started f in
        unsent g token
    | none ↦ refresh_own id force on_fail turn f
  ]

  -- The linked accounts in error, with their files.
  abbrev pub errored : List (Account F) → List (String × String)
  errored [] = []
  errored (a ∷ v) =
      let rest = errored v in
      if is_oauth a.kind && is_error a.status
      then elim a.import_from [ none ↦ rest | some p ↦ (a.id, p) ∷ rest ]
      else rest

  abbrev pub reread_all :
      Files → (Fleet F → Fleet F) → ℤ → List (String × String) → Fleet F → Fleet F
  reread_all files others now [] f = f
  reread_all files others now ((id, path) ∷ rest) f =
      reread_all files others now rest (reread_linked files others id path false now f).0

  unfoldable pub recheck_linked : Files → (Fleet F → Fleet F) → ℤ → Fleet F → Fleet F
  unfolding reread_linked
  recheck_linked files others now f = reread_all files others now (errored f.accounts) f

  -- The expiry to warn about, once for each login.
  abbrev pub to_warn : ℤ → Account F → Option ℤ
  to_warn now a = elim a.refresh_expires_at [
    | none ↦ none
    | some e ↦ if ends_soon now e && not (is_time e a.login_warned_for) then some e else none
  ]

  -- The accounts with what is noted, and the logins that get a line in the log.
  abbrev pub warn_all : ℤ → List (Account F) → List (Account F) × List (String × ℤ)
  warn_all now [] = ([], [])
  warn_all now (a ∷ v) =
      let (v', lines) = warn_all now v in
      elim (to_warn now a) [
        | none ↦ (a ∷ v', lines)
        | some e ↦ (record a { login_warned_for = some e } ∷ v', (a.name, e) ∷ lines)
      ]

  unfoldable pub warn_login_expiry : ℤ → Fleet F → Fleet F × List (String × ℤ)
  warn_login_expiry now f =
      let (v, lines) = warn_all now f.accounts in (record f { accounts = v }, lines)
