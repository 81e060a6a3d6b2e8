-- ===== src/Tests/Probes.antt =====
-- Witnesses for the prober.
use corrall.Prelude.{
  ℕ, ◌+◌, ◌*◌, ◌≤◌, String, ◌≡◌, refl, true, false, List, [], ◌∷◌, none, some, here, arith, keep,
  ◌||◌,
}
use corrall.Prelude.Maps.{Map, lookup}
use corrall.Session.{member}
use corrall.Prober.{
  Seen, claim, claim_due, back_off, interval_of, second, max_backoff, lesser, greater,
}
use corrall.Prober.Bookings.{probed, is_due, claim-accounts, Distinct}
use corrall.Prober.Liveness.{Tick, Serves, is_claimed, is_claimed_again}
use corrall.Prober.Backoff.{claim_due-back_off, starts, AreApart, starts-AreApart}

abbrev members : List (String × String)
members = ("a", "work") ∷ ("b", "home") ∷ []

-- The first account was booked 10 seconds ahead, the second is past its time.
abbrev entry : Seen
entry = record { on = true; not_before = none; due = ("a", 110 * second) ∷ ("b", 90 * second) ∷ [] }

members-Distinct : Distinct members
members-Distinct = (refl, (refl, tt))

abbrev table : Map Seen
table = ("default", entry) ∷ []

claim-accounts_example :
    probed (claim 300 members ("b" ∷ []) (100 * second) entry).1
    ≡ keep
        (λ (a : String × String). member a.0 ("b" ∷ []) || is_due (100 * second) entry.due a.0)
        members
unfolding lookup
claim-accounts_example = claim-accounts 300 members ("b" ∷ []) (100 * second) entry members-Distinct

abbrev tick_at : ℕ → Tick
tick_at secs = record { secs = 300; accounts = members; recheck = []; now = secs * second }

tick_at-Serves : (secs : ℕ) → Serves none ("a", "work") (tick_at secs)
tick_at-Serves secs = (omega arith, members-Distinct, here, refl)

booked_soon :
    (id : String) (t : ℕ) → lookup id entry.due ≡ some t → t ≤ 100 * second + 2 * interval_of 300
unfolding lookup
booked_soon id t h = ground arith

is_claimed_again_example :
    is_claimed "default" "a"
      (tick_at 400 ∷ tick_at 800 ∷ [])
      (claim_due "default" 300 members [] (100 * second) table).0
    ≡ true
unfolding lookup
is_claimed_again_example =
    is_claimed_again "default" ("a", "work") (tick_at 100) (tick_at 400 ∷ tick_at 800 ∷ []) table
      entry refl booked_soon (tick_at-Serves 100, (tick_at-Serves 400, (tick_at-Serves 800, tt)))
      refl

abbrev two_pools : Map Seen
two_pools = ("default", entry) ∷ ("home", entry) ∷ []

claim_due-back_off_example :
    ((claim_due "default" 60 members []
        (150 * second)
        (back_off "default" 60 (100 * second) two_pools).0).1
      ≡ none)
    × (100 * second + lesser (2 * (greater 60 30 * second)) max_backoff
        ≡ (back_off "default" 60 (100 * second) two_pools).1)
    × (lookup "home" (back_off "default" 60 (100 * second) two_pools).0 ≡ lookup "home" two_pools)
unfolding back_off
claim_due-back_off_example =
    claim_due-back_off "default" "home" 60 60 members [] (100 * second) (150 * second) two_pools
      (omega arith) (omega arith) (λ e. cc e)

starts-AreApart_example :
    AreApart none (starts none ((second, false) ∷ (20 * second, false) ∷ (40 * second, false) ∷ []))
starts-AreApart_example =
    starts-AreApart none ((second, false) ∷ (20 * second, false) ∷ (40 * second, false) ∷ [])
