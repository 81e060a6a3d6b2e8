-- ===== src/Prober/Backoff.antt =====
-- What src/prober.rs does after a rate limit, and how far apart manual runs are.
use mathlib.Core.Option
use corrall.Prelude.{
  ℕ, ◌+◌, ◌-◌, ◌*◌, ◌/◌, ◌≤◌, ◌<◌, String, ◌≡◌, refl, Bool, true, false, List, [], ◌∷◌, Option,
  none, some, ltb, arith, eq_refl, eq_iff, ◌≢◌, ◌%◌, ◌^◌, Bool-cases, inl, inr,
}
use corrall.Prelude.Maps.{Map, lookup, lookup-insert_sorted}
use corrall.Prober.{
  Seen, claim_due, back_off, greater, lesser, min_interval, max_backoff, second, unseen,
  ManualProbe, started, already_running, too_soon, request_manual, manual_min_gap, begin_manual,
}

small_product : (secs : ℕ) → secs < 2 ^ 63 → (greater secs 30 * 2) % 2 ^ 64 ≡ 2 * greater secs 30
small_product secs small = ground arith

-- After a rate-limited run, where the interval is below 2 ^ 63 seconds: the time that back_off gives
-- is two intervals ahead, an hour at most; a claim of the pool before it, on the table that back_off
-- leaves, gives nothing; and in that table the entries of the other pools are as they were.
pub claim_due-back_off :
    (pool other : String) (secs later : ℕ) (accounts : List (String × String))
    (recheck : List String) (now soon : ℕ) (seen : Map Seen)
    → secs < 2 ^ 63
    → soon < (back_off pool secs now seen).1
    → other ≢ pool
    → ((claim_due pool later accounts recheck soon (back_off pool secs now seen).0).1 ≡ none)
      × (now + lesser (2 * (greater secs 30 * second)) max_backoff
          ≡ (back_off pool secs now seen).1)
      × (lookup other (back_off pool secs now seen).0 ≡ lookup other seen)
unfolding back_off claim_due
claim_due-back_off pool other secs later accounts recheck now soon seen small early apart =
    (idle, until, kept)
  where
    noted_at : Seen
    noted_at = record (Option.get_or (lookup pool seen) unseen) {
      not_before =
          some (now + lesser ((greater secs min_interval * 2) % 2 ^ 64 * second) max_backoff);
    }

    idle : (claim_due pool later accounts recheck soon (back_off pool secs now seen).0).1 ≡ none
    idle = ground (arith, eq_refl pool, lookup-insert_sorted pool pool noted_at seen)

    until :
        now + lesser (2 * (greater secs 30 * second)) max_backoff ≡ (back_off pool secs now seen).1
    until = rw (small_product secs small) ground arith

    kept : lookup other (back_off pool secs now seen).0 ≡ lookup other seen
    kept = ground (arith, eq_iff pool other, lookup-insert_sorted pool other noted_at seen)

abbrev pub noted : ManualProbe → ℕ → List ℕ → List ℕ
noted started now ts = now ∷ ts
noted already_running now ts = ts
noted (too_soon s) now ts = ts

-- The times at which a run of requests for a manual probe starts one: each request has the time, and
-- whether a run is in progress.
abbrev pub starts : Option ℕ → List (ℕ × Bool) → List ℕ
starts last [] = []
starts last ((now, busy) ∷ requests) =
    noted (request_manual busy now last).1 now (starts (request_manual busy now last).0 requests)

abbrev pub AreApart : Option ℕ → List ℕ → Type 0
AreApart last [] = Unit
AreApart none (t ∷ ts) = AreApart (some t) ts
AreApart (some u) (t ∷ ts) = (u + manual_min_gap ≤ t) × AreApart (some t) ts

manual_early :
    (busy : Bool) (now t : ℕ)
    → ltb (now - t) manual_min_gap ≡ true
    → request_manual busy now (some t)
      ≡ (some t, too_soon (greater ((manual_min_gap - (now - t)) / second) 1))
unfolding request_manual
manual_early busy now t h = rw h refl

manual_first : (busy : Bool) (now : ℕ) → request_manual busy now none ≡ begin_manual busy now none
unfolding request_manual
manual_first busy now = refl

manual_late :
    (busy : Bool) (now t : ℕ)
    → ltb (now - t) manual_min_gap ≡ false
    → request_manual busy now (some t) ≡ begin_manual busy now (some t)
unfolding request_manual
manual_late busy now t h = rw h refl

-- Manual runs start at least half a minute apart, however they are asked for.
pub starts-AreApart :
    (last : Option ℕ) (requests : List (ℕ × Bool)) → AreApart last (starts last requests)
starts-AreApart last [] = tt
starts-AreApart none ((now, true) ∷ requests) =
    rw (manual_first true now) (starts-AreApart none requests)
starts-AreApart none ((now, false) ∷ requests) =
    rw (manual_first false now) (starts-AreApart (some now) requests)
starts-AreApart (some t) ((now, true) ∷ requests) =
    elim (Bool-cases (ltb (now - t) manual_min_gap)) [
      | inl early ↦ rw (starts, manual_early true now t early) (starts-AreApart (some t) requests)
      | inr long ↦ rw (starts, manual_late true now t long) (starts-AreApart (some t) requests)
    ]
starts-AreApart (some t) ((now, false) ∷ requests) =
    elim (Bool-cases (ltb (now - t) manual_min_gap)) [
      | inl early ↦ rw (starts, manual_early false now t early) (starts-AreApart (some t) requests)
      | inr long ↦
          let apart : t + manual_min_gap ≤ now = ground arith in
          rw (starts, AreApart, manual_late false now t long)
            (apart, starts-AreApart (some now) requests)
    ]
