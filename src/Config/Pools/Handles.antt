-- ===== src/Config/Pools/Handles.antt =====
-- src/config.rs: which account a handle of the command line names.
pub mod Fitting
use mathlib.Core.Option
use corrall.Prelude.{
  ℕ, zero, suc, ◌≤◌, String, ◌≡◌, ◌≢◌, refl, sym, ◌∙◌, ap, Bool, true, false, not, ◌&&◌, ◌||◌, List,
  [], ◌∷◌, map, Option, none, some, all, length, get_elem?, arith, if◌then◌else◌, Bool-cases, inl,
  inr, and_true, or_left, or_right,
}
use corrall.Prelude.Bytes.{Bytes, codes, trim, split_once, bytes_eq}
use corrall.Prelude.Maps.{lookup}
use corrall.Config.{AccountConfig}
use corrall.Config.Pools.{Config, PoolConfig, is_blank}
use corrall.Config.Pools.Names.{pool_names}

pub data AccountMatch : Type 0 where
  nothing : AccountMatch
  one : ℕ → AccountMatch
  ambiguous : List ℕ → AccountMatch

abbrev pub text_is : Bytes → Option String → Bool
text_is n none = false
text_is n (some s) = bytes_eq (codes s) n

-- `split(" (").next()`: what stands before the first " (".
unfoldable pub before_paren : Bytes → Bytes
before_paren [] = []
before_paren (c ∷ []) = c ∷ []
before_paren (c ∷ d ∷ s) =
    let rest = before_paren (d ∷ s) in if bytes_eq (c ∷ d ∷ []) (codes " (") then [] else c ∷ rest

-- The places of the elements that pass (`enumerate`, `filter`).
abbrev pub places {ℓ} : {A : Type ℓ} → (A → Bool) → List A → List ℕ
places p [] = []
places p (x ∷ xs) = let rest = map suc (places p xs) in if p x then 0 ∷ rest else rest

abbrev pub first_place : List ℕ → Option ℕ
first_place [] = none
first_place (i ∷ is) = some i

abbrev pub of_hits : List ℕ → AccountMatch
of_hits [] = nothing
of_hits (i ∷ []) = one i
of_hits (i ∷ j ∷ is) = ambiguous (i ∷ j ∷ is)

module _ {F : Type 0} where
  abbrev pub is_exact : Bytes → AccountConfig F → Bool
  is_exact n a = bytes_eq (codes a.name) n || text_is n a.id

  abbrev pub is_owner : Bytes × Bytes → AccountConfig F → Bool
  is_owner (au, ou) a = text_is au a.account_uuid && text_is ou a.org_uuid

  unfoldable pub is_loose : Bytes → AccountConfig F → Bool
  unfolding before_paren
  is_loose n a =
      text_is n a.account_uuid
      || (text_is n a.org_uuid || (text_is n a.email || bytes_eq (before_paren (codes a.name)) n))

  abbrev pub owner_place : Bytes → List (AccountConfig F) → Option ℕ
  owner_place n accounts =
      Option.bind (split_once b'/' n) (λ o. first_place (places (is_owner o) accounts))

  abbrev pub match_accounts : Bytes → List (AccountConfig F) → AccountMatch
  match_accounts n accounts = elim (first_place (places (is_exact n) accounts)) [
    | some i ↦ one i
    | none ↦ elim (owner_place n accounts) [
      | some i ↦ one i
      | none ↦ of_hits (places (is_loose n) accounts)
    ]
  ]

  -- `Config::match_account_in`
  unfoldable pub match_account_in : String → String → Config F → AccountMatch
  unfolding is_loose trim split_once Option.bind
  match_account_in pool needle cfg = elim (lookup pool cfg.pools) [
    | none ↦ nothing
    | some p ↦
        let n = trim (codes needle) in if is_blank n then nothing else match_accounts n p.accounts
  ]

-- An error names the places among which the handle does not decide.
pub data Found : Type 0 where
  absent : Found
  at : ℕ → Found
  error : List ℕ → Found

abbrev pub found_of : AccountMatch → Found
found_of nothing = absent
found_of (one i) = at i
found_of (ambiguous is) = error is

pub data FoundIn : Type 0 where
  nowhere : FoundIn
  in_pool : String → ℕ → FoundIn
  undecided : String → List ℕ → FoundIn

module _ {F : Type 0} where
  -- `Config::find_account_idx_in`
  abbrev pub find_account_idx_in : String → String → Config F → Found
  find_account_idx_in pool needle cfg = found_of (match_account_in pool needle cfg)

  abbrev pub find_in : List String → String → Config F → FoundIn
  find_in [] needle cfg = nowhere
  find_in (p ∷ pools) needle cfg =
      let rest = find_in pools needle cfg in
      elim (find_account_idx_in p needle cfg) [
        | absent ↦ rest
        | at i ↦ in_pool p i
        | error is ↦ undecided p is
      ]

  -- `Config::find_account`
  unfoldable pub find_account : String → Config F → FoundIn
  unfolding match_account_in pool_names
  find_account needle cfg = find_in (pool_names cfg) needle cfg
