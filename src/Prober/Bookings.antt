-- ===== src/Prober/Bookings.antt =====
-- The claims of src/prober.rs: who is picked, and what is booked.
use native.Mathlib.Nat.{div-le_of_le-mul}
use corrall.Prelude.{
  At-cases, ◌⊎◌, ◌∙◌, ap, subst, sym, ℕ, ◌+◌, ◌*◌, ◌/◌, ◌≤◌, ◌<◌, String, ◌≡◌, refl, Bool, true,
  false, not, ◌&&◌, ◌||◌, List, [], ◌∷◌, Option, none, some, any, keep, length, ltb, if◌then◌else◌,
  ◌==◌, At, here, there, arith, Option-cases, inl, inr, eq_iff,
}
use corrall.Prelude.Maps.{Map, lookup, insert_sorted, lookup-insert_sorted}
use corrall.Session.{member}
use corrall.Prober.{
  Seen, Claim, next_turn, book, claim, interval_of, is_booked_for, is_empty, greater,
}

-- A booking that has not come yet is left alone.
pub lookup-book :
    (newly_on : Bool) (interval n now : ℕ) (accounts : List (String × String)) (i : ℕ) (due : Map ℕ)
    (id : String) (t : ℕ)
    → lookup id due ≡ some t
    → now < t
    → lookup id (book newly_on interval n now accounts i due).0 ≡ some t
unfolding book
lookup-book newly_on interval n now [] i due id t h later = h
lookup-book newly_on interval n now ((j, name) ∷ accounts) i due id t h later =
    go (next_turn newly_on interval n now i (lookup j due)) refl
      (lookup-book newly_on interval n now accounts (i + 1) due id t h later)
      (λ u e.
        lookup-book newly_on interval n now accounts (i + 1) (insert_sorted j u due) id t e later)
  where
    go :
        (o : Option ℕ)
        → next_turn newly_on interval n now i (lookup j due) ≡ o
        → lookup id (book newly_on interval n now accounts (i + 1) due).0 ≡ some t
        → ((u : ℕ)
            → lookup id (insert_sorted j u due) ≡ some t
            → lookup id (book newly_on interval n now accounts (i + 1) (insert_sorted j u due)).0
              ≡ some t)
        → lookup id
            (elim o as (λ _. Map ℕ × List (String × String)) [
              | none ↦ book newly_on interval n now accounts (i + 1) due
              | some u ↦
                  let (due', picked) =
                    book newly_on interval n now accounts (i + 1) (insert_sorted j u due) in
                  (due', (j, name) ∷ picked)
            ]).0
          ≡ some t
    go none e rest ih = rest
    go (some u) e rest ih = ih u (ground (arith, lookup-insert_sorted j id u due, eq_iff j id))

-- The spread of the first round stays within an interval.
spread-le : (interval n i : ℕ) → i ≤ n → (interval * i) / n ≤ interval
spread-le interval n i h = div-le_of_le-mul n (grind arith)

next_turn_bounds :
    (newly_on : Bool) (interval n now i : ℕ) (o : Option ℕ) (t : ℕ)
    → next_turn newly_on interval n now i o ≡ some t
    → i ≤ n
    → 0 < interval
    → (now < t) × (t ≤ now + 2 * interval)
next_turn_bounds newly_on interval n now i none t h small some_time =
    ground (arith, spread-le interval n i)
next_turn_bounds newly_on interval n now i (some u) t h small some_time = ground arith

-- The account has a turn, which lies ahead and within two intervals.
abbrev pub HasTurn : ℕ → ℕ → Map ℕ → String → Type 0
HasTurn interval now due id =
    (t : ℕ) × ((lookup id due ≡ some t) × (now < t) × (t ≤ now + 2 * interval))

book-HasTurn :
    (newly_on : Bool) (interval n now : ℕ) (accounts : List (String × String)) (i : ℕ) (due : Map ℕ)
    (a : String × String)
    → i + length accounts ≤ n
    → 0 < interval
    → ((id : String) (t : ℕ) → lookup id due ≡ some t → t ≤ now + 2 * interval)
    → At a accounts
    → HasTurn interval now (book newly_on interval n now accounts i due).0 a.0
unfolding book
book-HasTurn newly_on interval n now [] i due a fits some_time near at = elim at [ ]
book-HasTurn newly_on interval n now ((j, name) ∷ accounts) i due a fits some_time near at =
    go (next_turn newly_on interval n now i (lookup j due)) refl (At-cases a (j, name) accounts at)
      (book-HasTurn newly_on interval n now accounts (i + 1) due a (omega arith) some_time near)
      (λ u e.
        book-HasTurn newly_on interval n now accounts (i + 1) (insert_sorted j u due) a
          (omega arith) some_time e)
  where
    go :
        (o : Option ℕ)
        → next_turn newly_on interval n now i (lookup j due) ≡ o
        → (a ≡ (j, name)) ⊎ At a accounts
        → (At a accounts
            → HasTurn interval now (book newly_on interval n now accounts (i + 1) due).0 a.0)
        → ((u : ℕ)
            → ((id : String) (t : ℕ)
                → lookup id (insert_sorted j u due) ≡ some t
                → t ≤ now + 2 * interval)
            → At a accounts
            → HasTurn interval now
                (book newly_on interval n now accounts (i + 1) (insert_sorted j u due)).0
                a.0)
        → HasTurn interval now
            (elim o as (λ _. Map ℕ × List (String × String)) [
              | none ↦ book newly_on interval n now accounts (i + 1) due
              | some u ↦
                  let (due', picked) =
                    book newly_on interval n now accounts (i + 1) (insert_sorted j u due) in
                  (due', (j, name) ∷ picked)
            ]).0
            a.0
    go none e (inl same) skip ih = elim (Option-cases (lookup j due)) [
      | inl absent ↦ absurd (ground arith)
      | inr (t, found) ↦
          let later : now < t = ground arith in
          subst (HasTurn interval now (book newly_on interval n now accounts (i + 1) due).0)
            (sym (ap (λ (x : String × String). x.0) same))
            (
              t,
              (
                lookup-book newly_on interval n now accounts (i + 1) due j t found later,
                later,
                near j t found,
              ),
            )
    ]
    go none e (inr at) skip ih = skip at
    go (some u) e (inl same) skip ih =
        let bounds =
          next_turn_bounds newly_on interval n now i (lookup j due) u e (omega arith) some_time in
        subst
          (HasTurn interval now
            (book newly_on interval n now accounts (i + 1) (insert_sorted j u due)).0)
          (sym (ap (λ (x : String × String). x.0) same))
          (
            u,
            (
              lookup-book newly_on interval n now accounts (i + 1) (insert_sorted j u due) j u
                  (ground (arith, lookup-insert_sorted j j u due, eq_iff j j)) bounds.0,
              bounds.0,
              bounds.1,
            ),
          )
    go (some u) e (inr at) skip ih =
        let bounds =
          next_turn_bounds newly_on interval n now i (lookup j due) u e (omega arith) some_time in
        ih u (λ id t found. ground (arith, near id t, lookup-insert_sorted j id u due, eq_iff j id))
          at

-- Whose turn has come by the bookings: an account without one, or one whose time is past.
abbrev pub is_due : ℕ → Map ℕ → String → Bool
is_due now due id = elim (lookup id due) [ none ↦ true | some t ↦ not (ltb now t) ]

-- No id stands twice.
abbrev pub Distinct : List (String × String) → Type 0
Distinct [] = Unit
Distinct (a ∷ accounts) =
    (any (λ (b : String × String). b.0 == a.0) accounts ≡ false) × Distinct accounts

-- A booking of another account does not change whose turn has come.
keep-is_due :
    (now : ℕ) (id : String) (t : ℕ) (due : Map ℕ) (accounts : List (String × String))
    → any (λ (b : String × String). b.0 == id) accounts ≡ false
    → keep (λ (a : String × String). is_due now (insert_sorted id t due) a.0) accounts
      ≡ keep (λ (a : String × String). is_due now due a.0) accounts
keep-is_due now id t due [] h = refl
keep-is_due now id t due ((j, name) ∷ accounts) h = ground (
  arith,
  keep-is_due now id t due accounts,
  lookup-insert_sorted id j t due,
  eq_iff id j,
  eq_iff j id,
)

book-picked :
    (newly_on : Bool) (interval n now : ℕ) (accounts : List (String × String)) (i : ℕ) (due : Map ℕ)
    → Distinct accounts
    → (book newly_on interval n now accounts i due).1
      ≡ keep (λ (a : String × String). is_due now due a.0) accounts
unfolding book
book-picked newly_on interval n now [] i due d = refl
book-picked newly_on interval n now ((j, name) ∷ accounts) i due d =
    go (lookup j due) refl (book-picked newly_on interval n now accounts (i + 1) due d.1) (λ u.
      book-picked newly_on interval n now accounts (i + 1) (insert_sorted j u due) d.1
      ∙ keep-is_due now j u due accounts d.0)
  where
    go :
        (o : Option ℕ)
        → lookup j due ≡ o
        → (book newly_on interval n now accounts (i + 1) due).1
          ≡ keep (λ (a : String × String). is_due now due a.0) accounts
        → ((u : ℕ)
            → (book newly_on interval n now accounts (i + 1) (insert_sorted j u due)).1
              ≡ keep (λ (a : String × String). is_due now due a.0) accounts)
        → (elim (next_turn newly_on interval n now i o) as (λ _. Map ℕ × List (String × String)) [
          | none ↦ book newly_on interval n now accounts (i + 1) due
          | some u ↦
              let (due', picked) =
                book newly_on interval n now accounts (i + 1) (insert_sorted j u due) in
              (due', (j, name) ∷ picked)
        ]).1
          ≡ (if elim o as (λ _. Bool) [ none ↦ true | some t ↦ not (ltb now t) ]
              then (j, name) ∷ keep (λ (a : String × String). is_due now due a.0) accounts
              else keep (λ (a : String × String). is_due now due a.0) accounts)
    go none e skip ih = ap (λ rest. (j, name) ∷ rest) (ih _)
    go (some t) e skip ih = ground (arith, ih (t + interval), ih (now + interval))

pub lookup-kept :
    (accounts : List (String × String)) (recheck : List String) (id : String) (due : Map ℕ)
    → lookup id (keep (is_booked_for accounts recheck) due) ≡ (
        if any (λ (a : String × String). a.0 == id) accounts && not (member id recheck)
        then lookup id due
        else none)
unfolding lookup
lookup-kept accounts recheck id [] = ground arith
lookup-kept accounts recheck id ((j, t) ∷ due) =
    ground (arith, lookup-kept accounts recheck id due, eq_iff j id)

pub any_of_At :
    (a : String × String) (accounts : List (String × String))
    → At a accounts
    → any (λ (b : String × String). b.0 == a.0) accounts ≡ true
any_of_At a [] at = elim at [ ]
any_of_At a (b ∷ accounts) at = elim (At-cases a b accounts at) [
  | inl same ↦ ground (arith, ap (λ (x : String × String). x.0) same, eq_iff b.0 a.0)
  | inr at' ↦ ground (arith, any_of_At a accounts at')
]

-- What is kept was there.
lookup-kept_of :
    (accounts : List (String × String)) (recheck : List String) (id : String) (t : ℕ) (due : Map ℕ)
    → lookup id (keep (is_booked_for accounts recheck) due) ≡ some t
    → lookup id due ≡ some t
lookup-kept_of accounts recheck id t due h = ground (arith, lookup-kept accounts recheck id due)

-- The accounts that a claim lists, none where there is no claim.
abbrev pub probed : Option Claim → List (String × String)
probed none = []
probed (some c) = c.accounts

probed-claim :
    (entry_on : Bool) (picked : List (String × String)) (next : Option ℕ)
    → probed (
        if is_empty picked && entry_on
        then none
        else some (record { newly_on = not entry_on; accounts = picked; next = next }))
      ≡ picked
probed-claim entry_on [] next = ground arith
probed-claim entry_on (a ∷ picked) next = refl

keep-same :
    (now : ℕ) (accounts : List (String × String)) (recheck : List String) (due : Map ℕ)
    (rest : List (String × String))
    → ((a : String × String) → At a rest → At a accounts)
    → keep
        (λ (a : String × String). is_due now (keep (is_booked_for accounts recheck) due) a.0)
        rest
      ≡ keep (λ (a : String × String). member a.0 recheck || is_due now due a.0) rest
keep-same now accounts recheck due [] part = refl
keep-same now accounts recheck due (a ∷ rest) part = ground (
  arith,
  keep-same now accounts recheck due rest (λ b at. part b (there at)),
  lookup-kept accounts recheck a.0 due,
  any_of_At a accounts (part a here),
)

-- A tick claims exactly the accounts whose turn has come and those that are to be checked again, in
-- the order of the pool, where no id stands twice.
pub claim-accounts :
    (secs : ℕ) (accounts : List (String × String)) (recheck : List String) (now : ℕ) (entry : Seen)
    → Distinct accounts
    → probed (claim secs accounts recheck now entry).1
      ≡ keep (λ (a : String × String). member a.0 recheck || is_due now entry.due a.0) accounts
unfolding claim
claim-accounts secs accounts recheck now entry d =
    probed-claim entry.on _ _
    ∙ book-picked (not entry.on) (interval_of secs) (greater (length accounts) 1) now accounts 0
        (keep (is_booked_for accounts recheck) entry.due) d
    ∙ keep-same now accounts recheck entry.due accounts (λ a at. at)

-- After a tick every account of the pool has a turn ahead, within two intervals, where that was so
-- of the bookings before.
pub claim-HasTurn :
    (secs : ℕ) (accounts : List (String × String)) (recheck : List String) (now : ℕ) (entry : Seen)
    (a : String × String)
    → ((id : String) (t : ℕ) → lookup id entry.due ≡ some t → t ≤ now + 2 * interval_of secs)
    → At a accounts
    → HasTurn (interval_of secs) now (claim secs accounts recheck now entry).0.due a.0
unfolding claim
claim-HasTurn secs accounts recheck now entry a near at =
    book-HasTurn (not entry.on) (interval_of secs) (greater (length accounts) 1) now accounts 0
      (keep (is_booked_for accounts recheck) entry.due) a (ground arith) (ground arith)
      (λ id t found. near id t (lookup-kept_of accounts recheck id t entry.due found)) at
