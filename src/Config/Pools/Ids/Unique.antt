-- ===== src/Config/Pools/Ids/Unique.antt =====
-- src/config.rs: every account has an id of its own.
use corrall.Prelude.{
  ℕ, ◌+◌, ◌≤◌, String, ◌≡◌, refl, sym, ◌∙◌, ap, Bool, true, false, not, ◌&&◌, List, [], ◌∷◌, ◌++◌,
  map, Option, none, some, arith, if◌then◌else◌, ◌==◌, eq_iff, Bool-cases, inl, inr, subst,
  and_true,
}
use corrall.Prelude.Maps.{Map}
use corrall.Config.{AccountConfig}
use corrall.Config.Pools.{Config, PoolConfig}
use corrall.Session.{member}
use corrall.Config.Pools.Ids.{
  is_usable, keep_or_issue, issue_ids, issue_pools, ensure_account_ids, Issued,
}

module _ {F : Type 0} where
  -- The ids of all accounts in the file, in order.
  abbrev pub ids_in : List (AccountConfig F) → List (Option String)
  ids_in accounts = map (λ (a : AccountConfig F). a.id) accounts

  abbrev pub all_ids : Map (PoolConfig F) → List (Option String)
  all_ids [] = []
  all_ids ((name, p) ∷ pools) = ids_in p.accounts ++ all_ids pools

-- Every account has an id that is not empty and that none of the others has, nor any of `seen`.
abbrev pub all_usable : List String → List (Option String) → Bool
all_usable seen [] = true
all_usable seen (none ∷ ids) = false
all_usable seen (some id ∷ ids) = is_usable seen (some id) && all_usable (id ∷ seen) ids

-- The ids that are met after a list of them.
abbrev pub met : List (Option String) → List String → List String
met [] seen = seen
met (none ∷ ids) seen = met ids seen
met (some id ∷ ids) seen = met ids (id ∷ seen)

all_usable-append :
    (ids more : List (Option String)) (seen : List String)
    → all_usable seen ids ≡ true
    → all_usable (met ids seen) more ≡ true
    → all_usable seen (ids ++ more) ≡ true
all_usable-append [] more seen h k = k
all_usable-append (none ∷ ids) more seen h k = absurd (cc h)
all_usable-append (some id ∷ ids) more seen h k =
    ground (arith, all_usable-append ids more (id ∷ seen))

usable_left :
    (ids more : List (Option String)) (seen : List String)
    → all_usable seen (ids ++ more) ≡ true
    → all_usable seen ids ≡ true
usable_left [] more seen h = refl
usable_left (none ∷ ids) more seen h = absurd (cc h)
usable_left (some id ∷ ids) more seen h = ground (arith, usable_left ids more (id ∷ seen))

usable_right :
    (ids more : List (Option String)) (seen : List String)
    → all_usable seen (ids ++ more) ≡ true
    → all_usable (met ids seen) more ≡ true
usable_right [] more seen h = h
usable_right (none ∷ ids) more seen h = absurd (cc h)
usable_right (some id ∷ ids) more seen h = ground (arith, usable_right ids more (id ∷ seen))

-- Which ids the sequence must not repeat: those of the file.
abbrev pub is_new : String → List (Option String) → Bool
is_new uuid [] = true
is_new uuid (none ∷ ids) = is_new uuid ids
is_new uuid (some id ∷ ids) = not (id == uuid) && is_new uuid ids

is_new_left :
    (uuid : String) (ids more : List (Option String))
    → is_new uuid (ids ++ more) ≡ true
    → is_new uuid ids ≡ true
is_new_left uuid [] more h = refl
is_new_left uuid (none ∷ ids) more h = is_new_left uuid ids more h
is_new_left uuid (some id ∷ ids) more h = ground (arith, is_new_left uuid ids more)

is_new_right :
    (uuid : String) (ids more : List (Option String))
    → is_new uuid (ids ++ more) ≡ true
    → is_new uuid more ≡ true
is_new_right uuid [] more h = h
is_new_right uuid (none ∷ ids) more h = is_new_right uuid ids more h
is_new_right uuid (some id ∷ ids) more h = ground (arith, is_new_right uuid ids more)

met-append :
    (ids more : List (Option String)) (seen : List String)
    → met (ids ++ more) seen ≡ met more (met ids seen)
met-append [] more seen = refl
met-append (none ∷ ids) more seen = met-append ids more seen
met-append (some id ∷ ids) more seen = met-append ids more (id ∷ seen)

-- What is assumed of the uuids: none is empty, and no two are the same.
pub record AreUuids (uuid : ℕ → String) : Type 0 where
  pub named : (i : ℕ) → (uuid i == "") ≡ false
  pub apart : (i j : ℕ) → uuid i ≡ uuid j → i ≡ j

module _ (uuid : ℕ → String) (u : AreUuids uuid) where
  -- No uuid from the n-th on was met.
  abbrev Ahead : List String → ℕ → Type 0
  Ahead seen n = (i : ℕ) → n ≤ i → member (uuid i) seen ≡ false

  issued-Ahead : (seen : List String) (n : ℕ) → Ahead seen n → Ahead (uuid n ∷ seen) (n + 1)
  issued-Ahead seen n h i le = elim (Bool-cases (uuid n == uuid i)) [
    | inl same ↦
        let again : n ≡ i = u.apart n i ((eq_iff (uuid n) (uuid i)).0 same) in absurd (omega arith)
    | inr other ↦ rw (other, h i (omega arith)) refl
  ]

  kept-Ahead :
      (id : String) (seen : List String) (n : ℕ)
      → Ahead seen n
      → ((i : ℕ) → (id == uuid i) ≡ false)
      → Ahead (id ∷ seen) n
  kept-Ahead id seen n h new i le = rw (new i, h i le) refl

  -- The id that an account gets is usable, and the uuids that follow stay ahead.
  given :
      (o : Option String) (seen : List String) (n : ℕ)
      → Ahead seen n
      → ((i : ℕ) → is_new (uuid i) (o ∷ []) ≡ true)
      → (is_usable seen (some (keep_or_issue (is_usable seen o) o (uuid n))) ≡ true)
        × Ahead
            (keep_or_issue (is_usable seen o) o (uuid n) ∷ seen)
            (if is_usable seen o then n else n + 1)
  given none seen n h new =
      (and_true _ _ (ap not (u.named n)) (ap not (h n (omega arith))), issued-Ahead seen n h)
  given (some id) seen n h new = elim (Bool-cases (is_usable seen (some id))) [
    | inl usable ↦ rw usable (usable, kept-Ahead id seen n h (λ i. ground (arith, new i)))
    | inr bad ↦
        rw bad
          (and_true _ _ (ap not (u.named n)) (ap not (h n (omega arith))), issued-Ahead seen n h)
  ]

  -- What a loop makes of the ids.
  record Sound (seen : List String) (ids : List (Option String)) (last : List String) (n : ℕ)
      : Type 0 where
    usable : all_usable seen ids ≡ true
    all_met : last ≡ met ids seen
    ahead : Ahead last n

  module _ {F : Type 0} where
    issue_ids-Sound :
        (accounts : List (AccountConfig F)) (seen : List String) (n : ℕ)
        → Ahead seen n
        → ((i : ℕ) → is_new (uuid i) (ids_in accounts) ≡ true)
        → Sound seen
            (ids_in (issue_ids uuid accounts seen n).made)
            (issue_ids uuid accounts seen n).seen
            (issue_ids uuid accounts seen n).count
    unfolding issue_ids
    issue_ids-Sound [] seen n h new = record { usable = refl; all_met = refl; ahead = h }
    issue_ids-Sound (a ∷ accounts) seen n h new =
        let got =
          given a.id seen n h (λ i. is_new_left (uuid i) (a.id ∷ []) (ids_in accounts) (new i)) in
        let rest =
          issue_ids-Sound accounts (keep_or_issue (is_usable seen a.id) a.id (uuid n) ∷ seen)
            (if is_usable seen a.id then n else n + 1) got.1
            (λ i. is_new_right (uuid i) (a.id ∷ []) (ids_in accounts) (new i)) in
        record {
          usable = and_true _ _ got.0 rest.usable;
          all_met = rest.all_met;
          ahead = rest.ahead;
        }

    issue_pools-Sound :
        (pools : Map (PoolConfig F)) (seen : List String) (n : ℕ)
        → Ahead seen n
        → ((i : ℕ) → is_new (uuid i) (all_ids pools) ≡ true)
        → Sound seen
            (all_ids (issue_pools uuid pools seen n).made)
            (issue_pools uuid pools seen n).seen
            (issue_pools uuid pools seen n).count
    unfolding issue_pools
    issue_pools-Sound [] seen n h new = record { usable = refl; all_met = refl; ahead = h }
    issue_pools-Sound ((name, p) ∷ pools) seen n h new =
        let issued = issue_ids uuid p.accounts seen n in
        let first =
          issue_ids-Sound p.accounts seen n h
            (λ i. is_new_left (uuid i) (ids_in p.accounts) (all_ids pools) (new i)) in
        let rest =
          issue_pools-Sound pools issued.seen issued.count first.ahead
            (λ i. is_new_right (uuid i) (ids_in p.accounts) (all_ids pools) (new i)) in
        record {
          usable = all_usable-append (ids_in issued.made) _ seen first.usable (
              subst
                (λ (s : List String).
                  all_usable s (all_ids (issue_pools uuid pools issued.seen issued.count).made)
                  ≡ true)
                first.all_met rest.usable);
          all_met =
              rest.all_met
              ∙ ap (met (all_ids (issue_pools uuid pools issued.seen issued.count).made))
                  first.all_met
              ∙ sym (met-append (ids_in issued.made) _ seen);
          ahead = rest.ahead;
        }

module _ {F : Type 0} where
  -- After ensure_account_ids every account of the file has an id that is not empty and that no other
  -- account has, in whichever pool, where the uuids are distinct and new to the file.
  pub ensure_account_ids-usable :
      (uuid : ℕ → String) (cfg : Config F)
      → AreUuids uuid
      → ((i : ℕ) → is_new (uuid i) (all_ids cfg.pools) ≡ true)
      → all_usable [] (all_ids (ensure_account_ids uuid cfg).0.pools) ≡ true
  unfolding ensure_account_ids
  ensure_account_ids-usable uuid cfg u new =
      (issue_pools-Sound uuid u cfg.pools [] 0 (λ i le. refl) new).usable

  issue_ids_usable :
      (uuid : ℕ → String) (accounts : List (AccountConfig F)) (seen : List String) (n : ℕ)
      → all_usable seen (ids_in accounts) ≡ true
      → issue_ids uuid accounts seen n
        ≡ record { made = accounts; seen = met (ids_in accounts) seen; count = n }
  unfolding issue_ids
  issue_ids_usable uuid [] seen n h = refl
  issue_ids_usable uuid (a ∷ accounts) seen n h =
      go a.id h (λ id u. issue_ids_usable uuid accounts (id ∷ seen) n u)
    where
      go :
          (o : Option String)
          → all_usable seen (o ∷ ids_in accounts) ≡ true
          → ((id : String)
              → all_usable (id ∷ seen) (ids_in accounts) ≡ true
              → issue_ids uuid accounts (id ∷ seen) n
                ≡ record { made = accounts; seen = met (ids_in accounts) (id ∷ seen); count = n })
          → (let rest =
                issue_ids uuid accounts
                  (keep_or_issue (is_usable seen o) o (uuid n) ∷ seen)
                  (if is_usable seen o then n else n + 1) in
              record rest {
                made =
                    record a { id = some (keep_or_issue (is_usable seen o) o (uuid n)) }
                    ∷ rest.made;
              })
            ≡ record {
              made = record a { id = o } ∷ accounts;
              seen = met (o ∷ ids_in accounts) seen;
              count = n;
            }
      go none h ih = absurd (cc h)
      go (some id) h ih =
          let usable : is_usable seen (some id) ≡ true = ground arith in
          let later : all_usable (id ∷ seen) (ids_in accounts) ≡ true = ground arith in
          rw usable (
            ap
              (λ (r : Issued (List (AccountConfig F))). record r {
                made = record a { id = some id } ∷ r.made;
              })
              (ih id later))

  issue_pools_usable :
      (uuid : ℕ → String) (pools : Map (PoolConfig F)) (seen : List String) (n : ℕ)
      → all_usable seen (all_ids pools) ≡ true
      → issue_pools uuid pools seen n
        ≡ record { made = pools; seen = met (all_ids pools) seen; count = n }
  unfolding issue_pools
  issue_pools_usable uuid [] seen n h = refl
  issue_pools_usable uuid ((name, p) ∷ pools) seen n h =
      let first =
        issue_ids_usable uuid p.accounts seen n
          (usable_left (ids_in p.accounts) (all_ids pools) seen h) in
      let rest =
        issue_pools_usable uuid pools (met (ids_in p.accounts) seen) n
          (usable_right (ids_in p.accounts) (all_ids pools) seen h) in
      rw first (rw rest (rw (met-append (ids_in p.accounts) (all_ids pools) seen) refl))

  unchanged :
      (uuid : ℕ → String) (cfg : Config F)
      → all_usable [] (all_ids cfg.pools) ≡ true
      → ensure_account_ids uuid cfg ≡ (cfg, false)
  unfolding ensure_account_ids
  unchanged uuid cfg h = rw (issue_pools_usable uuid cfg.pools [] 0 h) refl

  -- A file whose ids were issued once is left as it is by the next load: whatever uuids it is given,
  -- no id is replaced and no change is reported.
  pub ensure_account_ids_again :
      (uuid other : ℕ → String) (cfg : Config F)
      → AreUuids uuid
      → ((i : ℕ) → is_new (uuid i) (all_ids cfg.pools) ≡ true)
      → ensure_account_ids other (ensure_account_ids uuid cfg).0
        ≡ ((ensure_account_ids uuid cfg).0, false)
  ensure_account_ids_again uuid other cfg u new =
      unchanged other (ensure_account_ids uuid cfg).0 (ensure_account_ids-usable uuid cfg u new)
