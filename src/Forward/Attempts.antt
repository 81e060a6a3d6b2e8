-- ===== src/Forward/Attempts.antt =====
-- src/proxy/forward.rs: one attempt, from the token to the answer. What others do to the fleet while
-- it waits for its slot and for the network are functions on the fleet.
use mathlib.Core.Option
use corrall.Prelude.{
  ℕ, String, Bool, true, false, not, ◌&&◌, ◌||◌, List, Option, none, some, eqb, leb, if◌then◌else◌,
}
use corrall.Prelude.Int.{ℤ}
use corrall.Prelude.Bytes.{Bytes}
use corrall.Prelude.Float.{Float}
use corrall.Prelude.Json.{Json, get}
use corrall.Fleet.{Fleet, Selected, account, is_oauth}
use corrall.Fleet.Upstream.{Platform}
use corrall.Fleet.Eligibility.{Reason, is_none, unavailable_reason}
use corrall.Fleet.Admission.{admit, release, open_request, close_request}
use corrall.Fleet.Health.{clear_rate_limited, is_entitlement_denied}
use corrall.Fleet.Responses.{update_quota}
use corrall.Fleet.Tallies.{record_token_usage_dims}
use corrall.Fleet.Tokens.{OnRefreshFail, Turn}
use corrall.Fleet.Tokens.Linked.{ensure_token_fresh}
use corrall.Forward.{Attempt, done, failover, abort, ReqInfo}
use corrall.Forward.Statuses.{
  Relay, relayed, lost, timed_out, unreadable, Received, Setting, on_status,
}

-- What sending the request comes to.
pub data Sent (F : Type 0) : Type 0 where
  answered : Received F → Sent F
  not_connected broken no_headers : Sent F

-- How the body of an answer ends: a stream goes on after the attempt.
pub data Body (F : Type 0) : Type 0 where
  streamed : Body F
  read : Option (Json F) → Body F
  cut_off : Body F

-- What happens while an attempt is under way; `setting` is what it reads once the headers are here.
pub record Course (F : Type 0) : Type 0 where
  pub started : ℤ
  pub first_turn : Turn F
  pub setting : Setting F
  pub others_waiting : Fleet F → Fleet F
  pub others_sending : Fleet F → Fleet F
  pub sent : Sent F
  pub body : Body F
  pub stamp : String
  pub client : Option String
  pub dimensions : List (String × String)

-- The statuses that the match handles before a body is relayed.
abbrev pub is_handled : ℕ → Bool
is_handled status =
    eqb status 429 || (eqb status 401 || (eqb status 403 || (leb 500 status && leb status 599)))

module _ {F : Type 0} where
  -- The usage of a body that was read whole.
  abbrev pub book_usage : Course F → ReqInfo → String → Option (Json F) → Fleet F → Fleet F
  book_usage c info id body f = elim (Option.bind body (get "usage")) [
    | none ↦ f
    | some u ↦
        record_token_usage_dims id info.session_id c.client c.dimensions info.model u c.setting.now
          c.stamp f
  ]

  -- A relayed answer: a stream keeps its place among the open requests.
  abbrev pub relay : Course F → ReqInfo → String → ℕ → Body F → Fleet F → Fleet F × Attempt Relay
  relay c info id status streamed f = (f, done (relayed status))
  relay c info id status cut_off f = (close_request id f, abort unreadable)
  relay c info id status (read body) f =
      (close_request id (book_usage c info id body f), done (relayed status))

  abbrev pub close_after : String → Fleet F × Attempt Relay → Fleet F × Attempt Relay
  close_after id (f, a) = (close_request id f, a)

  -- An answer that is no rate limit ends a pause.
  abbrev pub lift_limit : ℕ → String → Fleet F → Fleet F
  lift_limit status id f = if eqb status 429 then f else clear_rate_limited id f

module _ {F : Type 0} ⦃fl : Float F⦄ ⦃pf : Platform⦄ where
  -- `Manager::unavailable_now`
  unfoldable pub unavailable_now :
      String → Option Bytes → Option Bytes → ℤ → Fleet F → Option (Reason F)
  unavailable_now id model advisor now f =
      Option.bind (account f id) (λ a. unavailable_reason f a model advisor now)

  -- The headers are here: the quota is read, and the status decides.
  unfoldable pub on_answer :
      Course F → ReqInfo → Selected → Received F → Fleet F → Fleet F × Attempt Relay
  unfolding on_status
  on_answer c info s r f =
      let noted = (update_quota s.id r.limits c.stamp c.setting.now f).fleet in
      let g = lift_limit r.status s.id noted in
      if is_handled r.status
      then close_after s.id (on_status c.setting info s r g)
      else relay c info s.id r.status c.body g

  -- After the send, with the slot given back.
  unfoldable pub on_sent :
      Course F → ReqInfo → Selected → Sent F → Fleet F → Fleet F × Attempt Relay
  unfolding on_answer
  on_sent c info s (answered r) f = on_answer c info s r f
  on_sent c info s not_connected f = (close_request s.id f, failover true)
  on_sent c info s broken f = (close_request s.id f, abort lost)
  on_sent c info s no_headers f = (close_request s.id f, abort timed_out)

  -- With the slot: a last look at the account, then the request is sent.
  unfoldable pub with_slot : Course F → ReqInfo → Selected → ℤ → Fleet F → Fleet F × Attempt Relay
  unfolding on_sent
  with_slot c info s now f =
      let barred =
        is_entitlement_denied s.id now f
        || not (is_none (unavailable_now s.id info.model info.advisor_model now f)) in
      if is_none info.pin && barred
      then (release s.id f, failover false)
      else on_sent c info s c.sent (release s.id (c.others_sending (open_request s.id f)))

  -- `attempt`, with so many looks at the ramp; nothing where they do not suffice.
  unfoldable pub attempt :
      ℕ → Course F → ReqInfo → Selected → Fleet F → Option (Fleet F × Attempt Relay)
  unfolding with_slot ensure_token_fresh admit
  attempt looks c info s f =
      let fresh =
        ensure_token_fresh c.setting.files s.id false OnRefreshFail.mark_dead c.first_turn f in
      let go = λ (g : Fleet F).
        Option.map (λ (r : Fleet F × ℤ). with_slot c info s r.1 r.0)
          (admit looks s.id c.started (c.others_waiting g)) in
      if not (is_oauth s.kind)
      then go f
      else if is_none fresh.token
      then some (fresh.fleet, failover false)
      else go fresh.fleet
