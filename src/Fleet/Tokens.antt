-- ===== src/Fleet/Tokens.antt =====
-- src/manager.rs: the refresh of a subscription's access token. A call waits twice, for its turn and
-- for the token endpoint: what other tasks do to the fleet meanwhile is handed in, and so are the
-- times and the answer. The write of a refreshed token to the config file is not modelled.
pub mod Linked
pub mod Refusals
pub mod Turns
use mathlib.Core.Option
use corrall.Prelude.{
  ℕ, ◌*◌, String, Bool, true, false, not, ◌&&◌, ◌||◌, Option, none, some, if◌then◌else◌, ◌==◌,
}
use corrall.Prelude.Int.{ℤ, younger, leb_ℤ}
use corrall.Config.{is_text}
use corrall.Quota.{or_else}
use corrall.Fleet.{Account, Fleet, Status, Provider, account, account_mut, is_error, is_oauth}
use corrall.Fleet.Eligibility.{is_none}

abbrev pub token_refresh_ahead_ms : ℕ
token_refresh_ahead_ms = 5 * 60 * 1000

abbrev pub forced_refresh_floor_ms : ℕ
forced_refresh_floor_ms = 30 * 1000

pub data OnRefreshFail : Type 0 where
  mark_dead keep : OnRefreshFail

abbrev pub is_past : ℤ → Option ℤ → Bool
is_past now none = false
is_past now (some e) = leb_ℤ e now

-- `OnRefreshFail::kills`
abbrev pub kills : OnRefreshFail → Option ℤ → ℤ → Bool
kills OnRefreshFail.mark_dead expires_at now = true
kills OnRefreshFail.keep expires_at now = is_past now expires_at

-- `oauth::is_expiring_soon`
abbrev pub is_expiring_soon : ℤ → Option ℤ → Bool
is_expiring_soon now none = true
is_expiring_soon now (some e) = younger e now token_refresh_ahead_ms

pub record Tokens : Type 0 where
  pub access_token : String
  pub refresh_token : Option String
  pub expires_at : ℤ
  pub refresh_expires_at : Option ℤ

pub data RefreshError : Type 0 where
  rejected : ℕ → String → RefreshError
  transient : String → RefreshError

pub data Outcome : Type 0 where
  refreshed : Tokens → Outcome
  failed : RefreshError → Outcome

abbrev pub rejected_message : String
rejected_message = "refresh token rejected; run: corrall login"

-- A refresh that a 401 forces waits out the floor since the last one.
abbrev pub floor_passed : ℤ → Option ℤ → Bool
floor_passed now none = true
floor_passed now (some last) = not (younger now last forced_refresh_floor_ms)

module _ {F : Type 0} where
  abbrev pub wants_refresh : Bool → ℤ → Account F → Bool
  wants_refresh force now a =
      if force then floor_passed now a.last_refresh_at else is_expiring_soon now a.expires_at

  abbrev pub mark_rejected : Account F → Account F
  mark_rejected a = record a { status = Status.error; error_message = some rejected_message }

  abbrev pub note_dead : OnRefreshFail → ℤ → Account F → Account F
  note_dead on_fail now a =
      if kills on_fail a.expires_at now && not (is_error a.status) then mark_rejected a else a

  -- The fleet, and the refresh token where a refresh is needed.
  abbrev pub begin_account :
      String
      → Bool
      → OnRefreshFail
      → ℤ
      → Fleet F
      → Account F
      → Option String
      → Fleet F × Option String
  begin_account id force on_fail now f a none = (f, none)
  begin_account id force on_fail now f a (some rt) =
      if is_text rt a.dead_refresh_token
      then (account_mut id (note_dead on_fail now) f, none)
      else if wants_refresh force now a
      then (f, some rt)
      else (f, none)

  unfoldable pub begin_refresh :
      String → Bool → OnRefreshFail → ℤ → Fleet F → Fleet F × Option String
  begin_refresh id force on_fail now f = elim (account f id) [
    | none ↦ (f, none)
    | some a ↦
        if is_oauth a.kind
        then begin_account id force on_fail now f a a.refresh_token
        else (f, none)
  ]

  -- After the wait for its turn: whether the refresh is still needed.
  unfoldable pub is_still_needed : Bool → String → ℤ → Account F → Bool
  is_still_needed force rt now a =
      if force
      then is_text rt a.refresh_token && floor_passed now a.last_refresh_at
      else is_expiring_soon now a.expires_at

  abbrev pub take_tokens : Tokens → String → ℤ → Account F → Account F
  take_tokens t rt now a = record a {
    credential = some t.access_token;
    refresh_token = some (Option.get_or t.refresh_token rt);
    expires_at = some t.expires_at;
    refresh_expires_at = or_else t.refresh_expires_at a.refresh_expires_at;
    last_refresh_at = some now;
    dead_refresh_token = none;
    status = if is_error a.status then Status.active else a.status;
    error_message = if is_error a.status then none else a.error_message;
  }

  abbrev pub take_rejection : OnRefreshFail → String → ℤ → Account F → Account F
  take_rejection on_fail rt now a =
      if kills on_fail a.expires_at now
      then record (mark_rejected a) { dead_refresh_token = some rt }
      else a

  unfoldable pub settle : String → OnRefreshFail → String → ℤ → Outcome → Fleet F → Fleet F
  settle id on_fail rt now (refreshed t) f = account_mut id (take_tokens t rt now) f
  settle id on_fail rt now (failed (rejected status detail)) f =
      account_mut id (take_rejection on_fail rt now) f
  settle id on_fail rt now (failed (transient why)) f = f

  abbrev pub credential_of : String → Fleet F → Option String
  credential_of id f = Option.bind (account f id) (λ a. a.credential)

-- What a call meets: the three times at which it looks at the clock, what the other tasks do while it
-- waits, and the token endpoint.
pub record Turn (F : Type 0) : Type 0 where
  pub started : ℤ
  pub locked : ℤ
  pub answered : ℤ
  pub others_before : Fleet F → Fleet F
  pub others_meanwhile : Fleet F → Fleet F
  pub endpoint : Provider → String → Outcome

-- How a call ends: the fleet, the token to use, and the refresh token that was sent, if any was.
pub record Ended (F : Type 0) : Type 0 where
  pub fleet : Fleet F
  pub token : Option String
  pub sent : Option String

module _ {F : Type 0} where
  abbrev pub unsent : Fleet F → Option String → Ended F
  unsent f token = record { fleet = f; token = token; sent = none }

  unfoldable pub send_refresh :
      String → OnRefreshFail → Turn F → Account F → String → Fleet F → Ended F
  unfolding settle account
  send_refresh id on_fail turn a rt f =
      let g =
        settle id on_fail rt turn.answered (turn.endpoint a.provider rt)
          (turn.others_meanwhile f) in
      record { fleet = g; token = credential_of id g; sent = some rt }

  abbrev pub send_held :
      String → OnRefreshFail → Turn F → Account F → Option String → Fleet F → Ended F
  send_held id on_fail turn a none f = unsent f none
  send_held id on_fail turn a (some rt) f = send_refresh id on_fail turn a rt f

  -- The turn has come: the account is looked at again, and the token that it holds now is sent.
  unfoldable pub locked_refresh :
      String → Bool → OnRefreshFail → Turn F → String → Fleet F → Ended F
  unfolding account is_still_needed
  locked_refresh id force on_fail turn rt f = elim (account f id) [
    | none ↦ unsent f none
    | some a ↦
        if is_still_needed force rt turn.locked a
        then send_held id on_fail turn a a.refresh_token f
        else unsent f a.credential
  ]

  abbrev pub after_begin :
      String → Bool → OnRefreshFail → Turn F → Fleet F × Option String → Ended F
  after_begin id force on_fail turn (f, none) = unsent f (credential_of id f)
  after_begin id force on_fail turn (f, some rt) =
      locked_refresh id force on_fail turn rt (turn.others_before f)

  -- `ensure_token_fresh` of an account that is not linked.
  unfoldable pub refresh_own : String → Bool → OnRefreshFail → Turn F → Fleet F → Ended F
  unfolding account begin_refresh locked_refresh
  refresh_own id force on_fail turn f =
      after_begin id force on_fail turn (begin_refresh id force on_fail turn.started f)
