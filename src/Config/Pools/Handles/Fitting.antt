-- ===== src/Config/Pools/Handles/Fitting.antt =====
-- src/config.rs: what the outcome of a handle says of the accounts.
use mathlib.Core.Option
use corrall.Prelude.{
  ℕ, ◌≤◌, ◌≡◌, Bool, true, false, not, ◌&&◌, ◌||◌, List, Option, none, some, all, length, keep, eqb,
  get_elem?,
}
use corrall.Prelude.Bytes.{Bytes, split_once}
use corrall.Config.{AccountConfig}
use corrall.Config.Pools.{Config}
use corrall.Config.Pools.Handles.{
  places, is_exact, is_owner, is_loose, AccountMatch, nothing, one, ambiguous,
}

-- Whether there is an element at the place, and it passes.
abbrev pub passes {ℓ} : {A : Type ℓ} → (A → Bool) → List A → ℕ → Bool
passes p xs i = elim (get_elem? xs i) [ none ↦ false | some x ↦ p x ]

module _ {F : Type 0} where
  abbrev pub is_owned : Bytes → AccountConfig F → Bool
  is_owned n a = elim (split_once b'/' n) [ none ↦ false | some o ↦ is_owner o a ]

  -- The handle is the account's name or id, its pair of uuids, or one of the looser ways to name it.
  abbrev pub fits : Bytes → AccountConfig F → Bool
  fits n a = is_exact n a || (is_owned n a || is_loose n a)

  -- No account passes.
  abbrev pub no_one : (AccountConfig F → Bool) → List (AccountConfig F) → Bool
  no_one p accounts = all (λ (a : AccountConfig F). not (p a)) accounts

  -- The account at the place is meant by its name or id; or no account is, and it is meant by its
  -- pair of uuids; or no account is in either way, and it alone is meant in one of the looser ways.
  abbrev pub is_meant : Bytes → List (AccountConfig F) → ℕ → Bool
  is_meant n accounts i =
      passes (is_exact n) accounts i
      || (no_one (is_exact n) accounts
          && (passes (is_owned n) accounts i
              || (no_one (is_owned n) accounts
                  && (passes (is_loose n) accounts i
                      && eqb (length (keep (is_loose n) accounts)) 1))))

  -- What the outcome says of the accounts.
  abbrev pub Describes : Bytes → List (AccountConfig F) → AccountMatch → Type 0
  Describes n accounts nothing = no_one (fits n) accounts ≡ true
  Describes n accounts (one i) = is_meant n accounts i ≡ true
  Describes n accounts (ambiguous is) =
      (no_one (is_exact n) accounts ≡ true)
      × (no_one (is_owned n) accounts ≡ true)
      × (2 ≤ length is)
      × (is ≡ places (is_loose n) accounts)
