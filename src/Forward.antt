-- ===== src/Forward.antt =====
-- src/proxy/forward.rs: the loop that tries one request on the accounts of a pool. What an attempt
-- upstream comes to, what other requests do to the fleet before each selection, and the clock are
-- arguments, so that what is shown holds whatever the network answers and however requests
-- interleave. `R` stands for the responses that an attempt builds.
pub mod Limits
pub mod Pinned
pub mod Again
pub mod Statuses
pub mod Attempts
use mathlib.Core.Option
use corrall.Prelude.{
  ℕ, zero, suc, ◌+◌, ◌*◌, String, Bool, true, false, not, ◌&&◌, List, [], ◌∷◌, Option, none, some,
  keep, length, leb, ltb, if◌then◌else◌, ◌==◌,
}
use corrall.Prelude.Int.{ℤ, ltb_ℤ}
use corrall.Prelude.Bytes.{Bytes}
use corrall.Prelude.Float.{Float}
use corrall.Session.{member}
use corrall.Fleet.{Fleet, Provider, SelectRequest, Selected}
use corrall.Fleet.Upstream.{Platform}
use corrall.Fleet.Eligibility.{Reason, is_none}
use corrall.Fleet.Select.{Selection, chosen, exhausted, pin_unavailable, pin_unknown}
use corrall.Fleet.Selection.{select}
use corrall.Fleet.Health.{record_failure}
use corrall.Fleet.Tallies.{record_session}

abbrev pub max_attempts : ℕ
max_attempts = 6

abbrev pub max_rate_limit_hops : ℕ
max_rate_limit_hops = 2

-- The outcome of one attempt; waits are in seconds, and the text of a failover is for the log only.
pub data Attempt (R : Type 0) : Type 0 where
  done : R → Attempt R
  reject : R → Attempt R
  failover : (transient : Bool) → Attempt R
  retry_same : (wait : ℕ) → Attempt R
  rate_limited_hop : (retry_after : ℕ) → Attempt R
  abort : R → Attempt R

-- The messages of the answers that the loop gives itself.
pub data Refusal (F : Type 0) : Type 0 where
  attempts_spent not_configured quota_reached pinned_failed upstream_limit two_in_a_row all_failed
        limit_persists :
      Refusal F
  cannot_serve : String → Option (Reason F) → Refusal F
  none_served : (tried : ℕ) → Refusal F

-- An answer of an attempt, or one of the loop's: status, message, seconds to wait.
pub data Reply (F R : Type 0) : Type 0 where
  passed : R → Reply F R
  refused : ℕ → Refusal F → Option ℕ → Reply F R

-- What the loop reads of `ReqInfo`.
pub record ReqInfo : Type 0 where
  pub model : Option Bytes
  pub advisor_model : Option Bytes
  pub session_id : Option String
  pub pin : Option String
  pub provider : Provider

-- The variables of the loop.
pub record Trying : Type 0 where
  pub tried : List String
  pub same_account_retries : ℕ
  pub rate_limit_hops : ℕ
  pub last_exhausted : Option (Option ℕ)

-- The world around the loop, by the number of the round; `clock` is read at the selection, and
-- `finished` after the attempt.
pub record World (F R : Type 0) : Type 0 where
  pub others : ℕ → Fleet F → Fleet F
  pub clock : ℕ → ℤ
  pub finished : ℕ → ℤ
  pub hold_deadline : Option ℤ
  pub attempt : ℕ → Selected → Fleet F → Fleet F × Attempt R

pub data Next (F R : Type 0) : Type 0 where
  answer : Reply F R → Next F R
  again : Trying → Next F R

pub record Round (F R : Type 0) : Type 0 where
  pub fleet : Fleet F
  pub next : Next F R
  pub asked : Option (String × Attempt R)

-- The end of the loop, with the accounts that were asked, and what came of each, in order.
pub record Ended (F R : Type 0) : Type 0 where
  pub fleet : Fleet F
  pub reply : Reply F R
  pub asked : List (String × Attempt R)

abbrev pub start : Trying
start = record { tried = []; same_account_retries = 0; rate_limit_hops = 0; last_exhausted = none }

-- `HashSet::insert` and `HashSet::remove`
abbrev pub add_id : String → List String → List String
add_id id ids = if member id ids then ids else id ∷ ids

abbrev pub drop_id : String → List String → List String
drop_id id ids = keep (λ (x : String). not (x == id)) ids

abbrev pub is_nil : List String → Bool
is_nil [] = true
is_nil (id ∷ ids) = false

abbrev pub is_before : ℤ → Option ℤ → Bool
is_before now none = false
is_before now (some deadline) = ltb_ℤ now deadline

-- `wait.as_secs().max(1)`
abbrev pub one_at_least : ℕ → ℕ
one_at_least n = if ltb n 1 then 1 else n

abbrev pub request_for : ReqInfo → Trying → SelectRequest
request_for info t = record {
  model = info.model;
  advisor_model = info.advisor_model;
  session_id = info.session_id;
  pin = info.pin;
  exclude = t.tried;
  allow_probe = true;
  provider = some info.provider;
}

module _ {F R : Type 0} where
  unfoldable pub on_exhausted : ℤ → Option ℤ → Option ℕ → Trying → Next F R
  on_exhausted now deadline wait t =
      if is_before now deadline
      then again (record t { last_exhausted = some wait; tried = [] })
      else if not (is_nil t.tried) && is_none wait
      then answer (refused 502 (none_served (length t.tried)) none)
      else if is_nil t.tried
      then answer (refused 429 quota_reached (some (Option.get_or wait 60)))
      else answer (refused 429 (none_served (length t.tried)) (some (Option.get_or wait 60)))

  unfoldable pub on_failover : Bool → String → Trying → Next F R
  on_failover pinned id t =
      let t' = record t { tried = add_id id t.tried } in
      if pinned
      then answer (refused 502 pinned_failed none)
      else if leb max_attempts (length t'.tried)
      then answer
          (refused 502 (none_served (length t'.tried)) (Option.get_or t.last_exhausted none))
      else again t'

  unfoldable pub on_hop : Bool → String → ℕ → Trying → Next F R
  on_hop pinned id retry_after t =
      let t' = record t { tried = add_id id t.tried; rate_limit_hops = t.rate_limit_hops + 1 } in
      if pinned
      then answer (refused 429 upstream_limit (some retry_after))
      else if leb max_rate_limit_hops t'.rate_limit_hops
      then answer (refused 429 two_in_a_row (some retry_after))
      else if leb max_attempts (length t'.tried)
      then answer (refused 502 all_failed (some retry_after))
      else again t'

  unfoldable pub on_retry : String → ℕ → Trying → Next F R
  on_retry id wait t =
      if ltb 4 (t.same_account_retries + 1)
      then answer (refused 429 limit_persists (some (one_at_least wait)))
      else again (record t {
        same_account_retries = t.same_account_retries + 1;
        tried = drop_id id t.tried;
      })

  -- What the loop does after an attempt.
  unfoldable pub after_attempt : Bool → String → Attempt R → Trying → Next F R
  unfolding on_failover on_hop on_retry
  after_attempt pinned id (done r) t = answer (passed r)
  after_attempt pinned id (reject r) t = answer (passed r)
  after_attempt pinned id (abort r) t = answer (passed r)
  after_attempt pinned id (failover transient) t = on_failover pinned id t
  after_attempt pinned id (rate_limited_hop retry_after) t = on_hop pinned id retry_after t
  after_attempt pinned id (retry_same wait) t = on_retry id wait t

  -- What the fleet is told of the attempt.
  unfoldable pub tell : ReqInfo → ℤ → String → Attempt R → Fleet F → Fleet F
  tell info now id (done r) f = record_session info.session_id id info.model now f
  tell info now id (failover true) f = record_failure id f
  tell info now id (abort r) f = record_failure id f
  tell info now id _ f = f

  abbrev pub and_then : Option (String × Attempt R) → Ended F R → Ended F R
  and_then none e = e
  and_then (some entry) e = record e { asked = entry ∷ e.asked }

module _ {F R : Type 0} ⦃fl : Float F⦄ ⦃pf : Platform⦄ where
  -- What follows a selection: an account is asked, or the loop answers or waits.
  unfoldable pub on_selection : World F R → ReqInfo → ℕ → Trying → Fleet F × Selection F → Round F R
  unfolding on_exhausted after_attempt tell
  on_selection w info n t (f, chosen s) =
      let (g, a) = w.attempt n s f in
      record {
        fleet = tell info (w.finished n) s.id a g;
        next = after_attempt (not (is_none info.pin)) s.id a t;
        asked = some (s.id, a);
      }
  on_selection w info n t (f, pin_unknown) = record {
    fleet = f;
    next = answer (refused 404 not_configured none);
    asked = none;
  }
  on_selection w info n t (f, pin_unavailable name why) = record {
    fleet = f;
    next = answer (refused 429 (cannot_serve name why) (some 30));
    asked = none;
  }
  on_selection w info n t (f, exhausted wait why) = record {
    fleet = f;
    next = on_exhausted (w.clock n) w.hold_deadline wait t;
    asked = none;
  }

  -- One pass of the loop.
  unfoldable pub round : World F R → ReqInfo → ℕ → Trying → Fleet F → Round F R
  unfolding on_selection
  round w info n t f =
      on_selection w info n t (select (request_for info t) (w.clock n) (w.others n f))

  -- The loop with so many attempts left.
  unfoldable pub rounds : World F R → ReqInfo → ℕ → ℕ → Trying → Fleet F → Ended F R
  unfolding round
  rounds w info zero n t f = record {
    fleet = f;
    reply = refused 502 attempts_spent none;
    asked = [];
  }
  rounds w info (suc left) n t f =
      let r = round w info n t f in
      and_then r.asked (elim r.next [
        | answer reply ↦ record { fleet = r.fleet; reply = reply; asked = [] }
        | again t' ↦ rounds w info left (suc n) t' r.fleet
      ])

  -- `forward`: three times MAX_ATTEMPTS passes at most.
  unfoldable pub forward : World F R → ReqInfo → Fleet F → Ended F R
  unfolding rounds
  forward w info f = rounds w info (3 * max_attempts) 0 start f
