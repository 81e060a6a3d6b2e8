-- ===== src/Prober/Liveness.antt =====
-- Runs of ticks of src/prober.rs: every account is probed again.
use corrall.Prelude.{
  ℕ, ◌+◌, ◌*◌, ◌≤◌, ◌<◌, String, ◌≡◌, ◌≢◌, refl, ap, ◌∙◌, Bool, true, false, not, ◌||◌, List, [],
  ◌∷◌, Option, some, any, keep, length, leb, eqb, ◌==◌, At, At-cases, arith, Bool-cases, inl, inr,
  eq_iff, eq_refl, or_left, or_right, All,
}
use corrall.Prelude.Maps.{Map, lookup, insert_sorted, lookup-insert_sorted}
use corrall.Session.{member}
use corrall.Prober.{Seen, claim, claim_due, interval_of, is_booked_for, is_off, greater}
use corrall.Prober.Bookings.{
  Distinct, probed, is_due, claim-accounts, claim-HasTurn, lookup-book, lookup-kept, any_of_At,
}

pub record Tick : Type 0 where
  pub secs : ℕ
  pub accounts : List (String × String)
  pub recheck : List String
  pub now : ℕ

abbrev pub is_listed : String → List (String × String) → Bool
is_listed id accounts = any (λ (a : String × String). a.0 == id) accounts

-- Whether some tick of the run claims the account.
abbrev pub is_claimed : String → String → List Tick → Map Seen → Bool
is_claimed pool id [] seen = false
is_claimed pool id (k ∷ ticks) seen =
    is_listed id (probed (claim_due pool k.secs k.accounts k.recheck k.now seen).1)
    || is_claimed pool id ticks (claim_due pool k.secs k.accounts k.recheck k.now seen).0

-- At the tick the pool is on, holds the account once, and is not held off.
abbrev pub Serves : Option ℕ → String × String → Tick → Type 0
Serves not_before a k =
    (k.secs ≢ 0) × Distinct k.accounts × At a k.accounts × (is_off k.now not_before ≡ false)

-- Some tick of the run is at the time or after it.
abbrev pub reaches : ℕ → List Tick → Bool
reaches t ticks = any (λ (k : Tick). leb t k.now) ticks

is_listed-keep :
    (p : String × String → Bool) (a : String × String) (accounts : List (String × String))
    → At a accounts
    → p a ≡ true
    → is_listed a.0 (keep p accounts) ≡ true
is_listed-keep p a [] at h = elim at [ ]
is_listed-keep p a (b ∷ accounts) at h = elim (At-cases a b accounts at) [
  | inl same ↦
      ground (arith, same, ap p same, ap (λ (x : String × String). x.0) same, eq_iff b.0 a.0)
  | inr at' ↦ ground (arith, is_listed-keep p a accounts at' h)
]

-- A tick on a pool that is on and not held off is a claim on its entry.
claim_due_on :
    (pool : String) (secs : ℕ) (accounts : List (String × String)) (recheck : List String) (now : ℕ)
    (seen : Map Seen) (entry : Seen)
    → secs ≢ 0
    → lookup pool seen ≡ some entry
    → is_off now entry.not_before ≡ false
    → claim_due pool secs accounts recheck now seen ≡ (
      insert_sorted pool (claim secs accounts recheck now entry).0 seen,
      (claim secs accounts recheck now entry).1,
    )
unfolding claim_due
claim_due_on pool secs accounts recheck now seen entry on found not_off =
    let nonzero : eqb secs 0 ≡ false = ground arith in rw (nonzero, found, not_off) refl

-- An account whose booked time has come, or that is to be checked again, is claimed.
claim_listed :
    (k : Tick) (entry : Seen) (a : String × String)
    → Distinct k.accounts
    → At a k.accounts
    → (member a.0 k.recheck || is_due k.now entry.due a.0) ≡ true
    → is_listed a.0 (probed (claim k.secs k.accounts k.recheck k.now entry).1) ≡ true
claim_listed k entry a d at h = rw (claim-accounts k.secs k.accounts k.recheck k.now entry d) (
    is_listed-keep (λ (b : String × String). member b.0 k.recheck || is_due k.now entry.due b.0) a
      k.accounts at h)

-- Until then its booking stands.
claim_kept :
    (k : Tick) (entry : Seen) (a : String × String) (t : ℕ)
    → At a k.accounts
    → lookup a.0 entry.due ≡ some t
    → member a.0 k.recheck ≡ false
    → k.now < t
    → lookup a.0 (claim k.secs k.accounts k.recheck k.now entry).0.due ≡ some t
unfolding claim
claim_kept k entry a t at booked unchecked later =
    lookup-book (not entry.on) (interval_of k.secs) (greater (length k.accounts) 1) k.now k.accounts
      0 (keep (is_booked_for k.accounts k.recheck) entry.due) a.0 t
      (ground (arith, lookup-kept k.accounts k.recheck a.0 entry.due, any_of_At a k.accounts at))
      later

not_before-claim :
    (k : Tick) (entry : Seen)
    → (claim k.secs k.accounts k.recheck k.now entry).0.not_before ≡ entry.not_before
unfolding claim
not_before-claim k entry = refl

-- A booked account is claimed by a run that reaches the time of its booking.
pub is_claimed_of_booked :
    (pool : String) (a : String × String) (t : ℕ) (not_before : Option ℕ) (ticks : List Tick)
    (seen : Map Seen) (entry : Seen)
    → lookup pool seen ≡ some entry
    → entry.not_before ≡ not_before
    → lookup a.0 entry.due ≡ some t
    → All (Serves not_before a) ticks
    → reaches t ticks ≡ true
    → is_claimed pool a.0 ticks seen ≡ true
is_claimed_of_booked pool a t not_before [] seen entry found off booked serves reached =
    absurd (cc reached)
is_claimed_of_booked pool a t not_before (k ∷ ticks) seen entry found off booked serves reached =
    let not_off : is_off k.now entry.not_before ≡ false = rw off serves.0.3 in
    let step =
      claim_due_on pool k.secs k.accounts k.recheck k.now seen entry serves.0.0 found not_off in
    rw step (elim (Bool-cases (member a.0 k.recheck || is_due k.now entry.due a.0)) [
      | inl due ↦ or_left _ _ (claim_listed k entry a serves.0.1 serves.0.2 due)
      | inr waits ↦
          let unchecked : member a.0 k.recheck ≡ false = ground arith in
          let later : k.now < t = ground arith in
          or_right _ _ (
            is_claimed_of_booked pool a t not_before ticks
              (insert_sorted pool (claim k.secs k.accounts k.recheck k.now entry).0 seen)
              (claim k.secs k.accounts k.recheck k.now entry).0
              (rw (lookup-insert_sorted, eq_refl) refl) (not_before-claim k entry ∙ off)
              (claim_kept k entry a t serves.0.2 booked unchecked later) serves.1 (ground arith))
    ])

reaches_le : (t u : ℕ) (ticks : List Tick) → t ≤ u → reaches u ticks ≡ true → reaches t ticks ≡ true
reaches_le t u [] h reached = reached
reaches_le t u (k ∷ ticks) h reached = ground (arith, reaches_le t u ticks h)

-- An account that a tick finds in its pool is claimed again by every run of later ticks that reaches
-- two intervals past that tick. The pool is on, holds the account once and is not held off at any of
-- these ticks, and no booking before lay further ahead than that.
pub is_claimed_again :
    (pool : String) (a : String × String) (k : Tick) (ticks : List Tick) (seen : Map Seen)
    (entry : Seen)
    → lookup pool seen ≡ some entry
    → ((id : String) (t : ℕ) → lookup id entry.due ≡ some t → t ≤ k.now + 2 * interval_of k.secs)
    → All (Serves entry.not_before a) (k ∷ ticks)
    → reaches (k.now + 2 * interval_of k.secs) ticks ≡ true
    → is_claimed pool a.0 ticks (claim_due pool k.secs k.accounts k.recheck k.now seen).0 ≡ true
is_claimed_again pool a k ticks seen entry found near serves reached =
    let (t, turn) = claim-HasTurn k.secs k.accounts k.recheck k.now entry a near serves.0.2 in
    rw (claim_due_on pool k.secs k.accounts k.recheck k.now seen entry serves.0.0 found serves.0.3)
      (is_claimed_of_booked pool a t entry.not_before ticks
        (insert_sorted pool (claim k.secs k.accounts k.recheck k.now entry).0 seen)
        (claim k.secs k.accounts k.recheck k.now entry).0 (rw (lookup-insert_sorted, eq_refl) refl)
        (not_before-claim k entry) turn.0 serves.1
        (reaches_le t (k.now + 2 * interval_of k.secs) ticks turn.2 reached))
