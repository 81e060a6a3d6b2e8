-- ===== src/Forward/Limits.antt =====
-- src/proxy/forward.rs: how often one request is sent upstream.
use mathlib.Core.Option
use corrall.Prelude.{
  ℕ, zero, suc, ◌+◌, ◌*◌, ◌≤◌, String, ◌≡◌, refl, Bool, true, false, not, ◌&&◌, List, [], ◌∷◌,
  Option, none, some, length, leb, ltb, arith, if◌then◌else◌,
}
use corrall.Prelude.Float.{Float}
use corrall.Fleet.{Fleet}
use corrall.Fleet.Upstream.{Platform}
use corrall.Fleet.Eligibility.{is_none}
use corrall.Fleet.Select.{Selection, chosen, exhausted, pin_unavailable, pin_unknown}
use corrall.Fleet.Selection.{select}
use corrall.Forward.{
  World, ReqInfo, Trying, Attempt, done, reject, failover, retry_same, rate_limited_hop, abort,
  Next, Reply, answer, again, add_id, drop_id, request_for, on_exhausted, on_failover, on_hop,
  on_retry, after_attempt, on_selection, round, rounds, forward, and_then, start, is_before, is_nil,
  max_attempts, max_rate_limit_hops, refused, pinned_failed, none_served, two_in_a_row, all_failed,
  limit_persists, one_at_least,
}

module _ {R : Type 0} where
  abbrev pub one_hop : Attempt R → ℕ
  one_hop (rate_limited_hop retry_after) = 1
  one_hop _ = 0

  abbrev pub one_retry : Attempt R → ℕ
  one_retry (retry_same wait) = 1
  one_retry _ = 0

  abbrev pub one_attempt : Attempt R → ℕ
  one_attempt a = 1

  -- How many of the attempts count.
  abbrev pub count_asked : (Attempt R → ℕ) → List (String × Attempt R) → ℕ
  count_asked m [] = 0
  count_asked m ((id, a) ∷ asked) = m a + count_asked m asked

module _ (F : Type 0) {R : Type 0} (m : Attempt R → ℕ) (c : Trying → ℕ) (top : ℕ) where
  -- A pass that goes on has counted its attempt in `c`, which stays within `top`.
  abbrev Counted : Trying → Option (String × Attempt R) → Next F R → Type 0
  Counted t none (answer r) = Unit
  Counted t none (again t') = c t' ≡ c t
  Counted t (some (id, a)) (answer r) = m a ≤ 1
  Counted t (some (id, a)) (again t') = (c t' ≡ c t + m a) × (c t' ≤ top)

  abbrev Grows : Trying → Trying → Attempt R → Type 0
  Grows t next a = (c next ≡ c t + m a) × (c next ≤ top)

  -- The loop goes on with `next` after its tests, or answers.
  one-Counted :
      (p : Bool) (t next : Trying) (id : String) (a : Attempt R) (r : Reply F R)
      → m a ≤ 1
      → (p ≡ false → Grows t next a)
      → Counted t (some (id, a)) (if p then answer r else again next)
  one-Counted true t next id a r h l = h
  one-Counted false t next id a r h l = l refl

  two-Counted :
      (p q : Bool) (t next : Trying) (id : String) (a : Attempt R) (r s : Reply F R)
      → m a ≤ 1
      → (p ≡ false → q ≡ false → Grows t next a)
      → Counted t (some (id, a)) (if p then answer r else if q then answer s else again next)
  two-Counted true q t next id a r s h l = h
  two-Counted false q t next id a r s h l = one-Counted q t next id a s h (l refl)

  abbrev tried_too : String → Trying → Trying
  tried_too id t = record t { tried = add_id id t.tried }

  abbrev hopped : String → Trying → Trying
  hopped id t = record t { tried = add_id id t.tried; rate_limit_hops = t.rate_limit_hops + 1 }

  abbrev retried : String → Trying → Trying
  retried id t = record t {
    same_account_retries = t.same_account_retries + 1;
    tried = drop_id id t.tried;
  }

  -- What it takes for every attempt to be counted.
  pub after_attempt-Counted :
      (pinned : Bool) (id : String) (a : Attempt R) (t : Trying)
      → ((b : Attempt R) → m b ≤ 1)
      → ((transient : Bool) → pinned ≡ false → Grows t (tried_too id t) (failover transient))
      → ((s : ℕ)
          → pinned ≡ false
          → leb max_rate_limit_hops (t.rate_limit_hops + 1) ≡ false
          → Grows t (hopped id t) (rate_limited_hop s))
      → ((wait : ℕ)
          → ltb 4 (t.same_account_retries + 1) ≡ false
          → Grows t (retried id t) (retry_same wait))
      → Counted t (some (id, a)) (after_attempt pinned id a t)
  unfolding after_attempt on_failover on_hop on_retry
  after_attempt-Counted pinned id (done r) t small on_f on_h on_r = small (done r)
  after_attempt-Counted pinned id (reject r) t small on_f on_h on_r = small (reject r)
  after_attempt-Counted pinned id (abort r) t small on_f on_h on_r = small (abort r)
  after_attempt-Counted pinned id (failover transient) t small on_f on_h on_r =
      two-Counted pinned (leb max_attempts (length (add_id id t.tried))) t (tried_too id t) id
        (failover transient) (refused 502 pinned_failed none)
        (refused 502 (none_served (length (add_id id t.tried)))
          (Option.get_or t.last_exhausted none))
        (small (failover transient)) (λ p q. on_f transient p)
  after_attempt-Counted false id (rate_limited_hop s) t small on_f on_h on_r =
      two-Counted (leb max_rate_limit_hops (t.rate_limit_hops + 1))
        (leb max_attempts (length (add_id id t.tried))) t (hopped id t) id (rate_limited_hop s)
        (refused 429 two_in_a_row (some s)) (refused 502 all_failed (some s))
        (small (rate_limited_hop s)) (λ p q. on_h s refl p)
  after_attempt-Counted true id (rate_limited_hop s) t small on_f on_h on_r =
      small (rate_limited_hop s)
  after_attempt-Counted pinned id (retry_same wait) t small on_f on_h on_r =
      one-Counted (ltb 4 (t.same_account_retries + 1)) t (retried id t) id (retry_same wait)
        (refused 429 limit_persists (some (one_at_least wait))) (small (retry_same wait))
        (on_r wait)

  module _ ⦃fl : Float F⦄ ⦃pf : Platform⦄ (w : World F R) (info : ReqInfo)
      (cleared : (t : Trying) (o : Option (Option ℕ))
        → c (record t { last_exhausted = o; tried = [] }) ≡ c t)
      (counts : (id : String) (a : Attempt R) (t : Trying)
        → c t ≤ top
        → Counted t (some (id, a)) (after_attempt (not (is_none info.pin)) id a t)) where
    on_selection-Counted :
        (n : ℕ) (t : Trying) (o : Fleet F × Selection F)
        → c t ≤ top
        → Counted t (on_selection w info n t o).asked (on_selection w info n t o).next
    unfolding on_selection on_exhausted
    on_selection-Counted n t (g, chosen s) h = counts s.id (w.attempt n s g).1 t h
    on_selection-Counted n t (g, pin_unknown) h = tt
    on_selection-Counted n t (g, pin_unavailable name why) h = tt
    on_selection-Counted n t (g, exhausted wait why) h =
        held (is_before (w.clock n) w.hold_deadline) (not (is_nil t.tried) && is_none wait)
          (is_nil t.tried) _ _ _
      where
        held :
            (p a b : Bool) (x y z : Reply F R)
            → Counted t none (
                if p
                then again (record t { last_exhausted = some wait; tried = [] })
                else if a
                then answer x
                else if b
                then answer y
                else answer z)
        held true a b x y z = cleared t (some wait)
        held false true b x y z = tt
        held false false true x y z = tt
        held false false false x y z = tt

    pub rounds-count :
        (left n : ℕ) (t : Trying) (f : Fleet F)
        → c t ≤ top
        → count_asked m (rounds w info left n t f).asked + c t ≤ suc top
    unfolding rounds round
    rounds-count zero n t f h = omega (arith, h)
    rounds-count (suc left) n t f h =
        go (round w info n t f).asked (round w info n t f).next
          (on_selection-Counted n t (select (request_for info t) (w.clock n) (w.others n f)) h)
          (λ t' k. rounds-count left (suc n) t' (round w info n t f).fleet k)
      where
        g : Fleet F
        g = (round w info n t f).fleet

        go :
            (o : Option (String × Attempt R)) (next : Next F R)
            → Counted t o next
            → ((t' : Trying)
                → c t' ≤ top
                → count_asked m (rounds w info left (suc n) t' g).asked + c t' ≤ suc top)
            → count_asked m
                  (and_then o (elim next [
                    | answer reply ↦ record { fleet = g; reply = reply; asked = [] }
                    | again t' ↦ rounds w info left (suc n) t' g
                  ])).asked
                + c t
              ≤ suc top
        go none (answer r) k rest = omega (arith, h)
        go none (again t') k rest = omega (arith, k, h, rest t' (omega (arith, k, h)))
        go (some (id, a)) (answer r) k rest = omega (arith, h, k)
        go (some (id, a)) (again t') (k, l) rest = omega (arith, k, l, rest t' l)

small_hop : {R : Type 0} (a : Attempt R) → one_hop a ≤ 1
small_hop a = ground arith

small_retry : {R : Type 0} (a : Attempt R) → one_retry a ≤ 1
small_retry a = ground arith

module _ {F R : Type 0} ⦃fl : Float F⦄ ⦃pf : Platform⦄ (w : World F R) (info : ReqInfo)
    (f : Fleet F) where
  forward-hops : count_asked one_hop (forward w info f).asked ≤ 2
  unfolding forward
  forward-hops = omega (
    arith,
    rounds-count F one_hop (λ t. t.rate_limit_hops) 1 w info (λ t o. refl)
        (λ id a t h.
          after_attempt-Counted F one_hop (λ t. t.rate_limit_hops) 1 _ id a t small_hop
            (λ s p. (omega arith, h)) (λ s p q. (refl, ground (arith, q)))
            (λ s p. (omega arith, h)))
        (3 * max_attempts) 0 start f (omega arith),
  )

  forward-retries : count_asked one_retry (forward w info f).asked ≤ 5
  unfolding forward
  forward-retries = omega (
    arith,
    rounds-count F one_retry (λ t. t.same_account_retries) 4 w info (λ t o. refl)
        (λ id a t h.
          after_attempt-Counted F one_retry (λ t. t.same_account_retries) 4 _ id a t small_retry
            (λ s p. (omega arith, h)) (λ s p q. (omega arith, h))
            (λ s p. (refl, ground (arith, p))))
        (3 * max_attempts) 0 start f (omega arith),
  )

  length-rounds :
      (left n : ℕ) (t : Trying) (g : Fleet F)
      → count_asked one_attempt (rounds w info left n t g).asked ≤ left
  unfolding rounds
  length-rounds zero n t g = omega arith
  length-rounds (suc left) n t g =
      go (round w info n t g).asked (round w info n t g).next
        (λ t'. length-rounds left (suc n) t' (round w info n t g).fleet)
    where
      go :
          (o : Option (String × Attempt R)) (next : Next F R)
          → ((t' : Trying)
              → count_asked one_attempt
                  (rounds w info left (suc n) t' (round w info n t g).fleet).asked
                ≤ left)
          → count_asked one_attempt
              (and_then o (elim next [
                | answer reply ↦ record {
                  fleet = (round w info n t g).fleet;
                  reply = reply;
                  asked = [];
                }
                | again t' ↦ rounds w info left (suc n) t' (round w info n t g).fleet
              ])).asked
            ≤ suc left
      go none (answer r) rest = omega arith
      go none (again t') rest = omega (arith, rest t')
      go (some (id, a)) (answer r) rest = omega arith
      go (some (id, a)) (again t') rest = omega (arith, rest t')

  -- One request is sent upstream at most eighteen times; at most twice it is answered with a rate
  -- limit too long to wait for, and at most five times it is to be retried on its account.
  pub forward-limits :
      (count_asked one_attempt (forward w info f).asked ≤ 3 * max_attempts)
      × (count_asked one_hop (forward w info f).asked ≤ max_rate_limit_hops)
      × (count_asked one_retry (forward w info f).asked ≤ 5)
  unfolding forward
  forward-limits = (length-rounds (3 * max_attempts) 0 start f, forward-hops, forward-retries)
