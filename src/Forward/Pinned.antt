-- ===== src/Forward/Pinned.antt =====
-- src/proxy/forward.rs: how a request with a pin goes on.
use corrall.Prelude.{
  ℕ, zero, suc, ◌*◌, ◌≤◌, String, ◌≡◌, refl, Bool, true, false, ◌&&◌, List, [], ◌∷◌, Option, none,
  some, arith, and_true,
}
use corrall.Prelude.Float.{Float}
use corrall.Fleet.{Fleet}
use corrall.Fleet.Upstream.{Platform}
use corrall.Fleet.Select.{Selection, chosen, exhausted, pin_unavailable, pin_unknown}
use corrall.Fleet.Selection.{select}
use corrall.Forward.{
  World, ReqInfo, Trying, Attempt, done, reject, failover, retry_same, rate_limited_hop, abort,
  Next, answer, again, request_for, on_failover, on_hop, on_retry, after_attempt, on_selection,
  round, rounds, forward, and_then, start, max_attempts,
}
use corrall.Forward.Limits.{count_asked, one_attempt, rounds-count, after_attempt-Counted}

module _ {R : Type 0} where
  abbrev is_retry : Attempt R → Bool
  is_retry (retry_same wait) = true
  is_retry _ = false

  -- Every attempt but the last is to be retried.
  abbrev pub only_retried : List (String × Attempt R) → Bool
  only_retried [] = true
  only_retried ((id, a) ∷ []) = true
  only_retried ((id, a) ∷ e ∷ asked) = is_retry a && only_retried (e ∷ asked)

  retried_first :
      (id : String) (a : Attempt R) (asked : List (String × Attempt R))
      → is_retry a ≡ true
      → only_retried asked ≡ true
      → only_retried ((id, a) ∷ asked) ≡ true
  retried_first id a [] h rest = refl
  retried_first id a (e ∷ asked) h rest = and_true _ _ h rest

module _ (F : Type 0) {R : Type 0} where
  -- A pass that asks an account and goes on is to be retried.
  abbrev Retries : Option (String × Attempt R) → Next F R → Type 0
  Retries none next = Unit
  Retries (some (id, a)) (answer r) = Unit
  Retries (some (id, a)) (again t) = is_retry a ≡ true

  after_attempt-Retries :
      (id : String) (a : Attempt R) (t : Trying)
      → Retries (some (id, a)) (after_attempt true id a t)
  unfolding after_attempt on_failover on_hop
  after_attempt-Retries id (done r) t = tt
  after_attempt-Retries id (reject r) t = tt
  after_attempt-Retries id (abort r) t = tt
  after_attempt-Retries id (failover transient) t = tt
  after_attempt-Retries id (rate_limited_hop s) t = tt
  after_attempt-Retries id (retry_same wait) t = go (on_retry id wait t)
    where
      go : (next : Next F R) → Retries (some (id, retry_same wait)) next
      go (answer r) = tt
      go (again t') = refl

module _ {F R : Type 0} ⦃fl : Float F⦄ ⦃pf : Platform⦄ (w : World F R) (info : ReqInfo)
    (pin : String) (pinned : info.pin ≡ some pin) where
  on_selection-Retries :
      (n : ℕ) (t : Trying) (o : Fleet F × Selection F)
      → Retries F (on_selection w info n t o).asked (on_selection w info n t o).next
  unfolding on_selection
  on_selection-Retries n t (g, chosen s) =
      rw pinned (after_attempt-Retries F s.id (w.attempt n s g).1 t)
  on_selection-Retries n t (g, pin_unknown) = tt
  on_selection-Retries n t (g, pin_unavailable name why) = tt
  on_selection-Retries n t (g, exhausted wait why) = tt

  rounds-retried :
      (left n : ℕ) (t : Trying) (f : Fleet F) → only_retried (rounds w info left n t f).asked ≡ true
  unfolding rounds round
  rounds-retried zero n t f = refl
  rounds-retried (suc left) n t f =
      go (round w info n t f).asked (round w info n t f).next
        (on_selection-Retries n t (select (request_for info t) (w.clock n) (w.others n f)))
        (λ t'. rounds-retried left (suc n) t' (round w info n t f).fleet)
    where
      g : Fleet F
      g = (round w info n t f).fleet

      go :
          (o : Option (String × Attempt R)) (next : Next F R)
          → Retries F o next
          → ((t' : Trying) → only_retried (rounds w info left (suc n) t' g).asked ≡ true)
          → only_retried
              (and_then o (elim next [
                | answer reply ↦ record { fleet = g; reply = reply; asked = [] }
                | again t' ↦ rounds w info left (suc n) t' g
              ])).asked
            ≡ true
      go none (answer r) k rest = refl
      go none (again t') k rest = rest t'
      go (some (id, a)) (answer r) k rest = refl
      go (some (id, a)) (again t') k rest = retried_first id a _ k (rest t')

-- A request with a pin is sent upstream at most five times, and again only after an attempt that is
-- to be retried: after any other outcome (a failover, a rate limit too long to wait for, an answer)
-- nothing more is sent.
pub forward-pinned :
    {F R : Type 0} ⦃fl : Float F⦄ ⦃pf : Platform⦄ (w : World F R) (info : ReqInfo) (f : Fleet F)
    (pin : String)
    → info.pin ≡ some pin
    → (count_asked one_attempt (forward w info f).asked ≤ 5)
      × (only_retried (forward w info f).asked ≡ true)
unfolding forward
forward-pinned {F} w info f pin pinned = (
  omega (
    arith,
    rounds-count F one_attempt (λ t. t.same_account_retries) 4 w info (λ t o. refl)
        (λ id a t h. rw pinned (
          after_attempt-Counted F one_attempt (λ t. t.same_account_retries) 4 true id a t
            (λ b. omega arith) (λ s p. absurd (cc p)) (λ s p q. absurd (cc p))
            (λ s p. (refl, ground (arith, p)))))
        (3 * max_attempts) 0 start f (omega arith),
  ),
  rounds-retried w info pin pinned (3 * max_attempts) 0 start f,
)
