-- ===== src/Config/Pools/Ids.antt =====
-- src/config.rs: the ids of accounts. Each new uuid is an element of a sequence that is handed in.
pub mod Unique
use corrall.Prelude.{
  ℕ, ◌+◌, ◌≤◌, String, ◌≡◌, refl, sym, ◌∙◌, ap, Bool, true, false, not, ◌&&◌, List, [], ◌∷◌, ◌++◌,
  map, Option, none, some, ltb, arith, if◌then◌else◌, ◌==◌, eq_iff, Bool-cases, inl, inr, subst,
  and_true,
}
use corrall.Prelude.Maps.{Map}
use corrall.Config.{AccountConfig}
use corrall.Config.Pools.{Config, PoolConfig}
use corrall.Session.{member}

-- An id that is not empty and that no account before has.
abbrev pub is_usable : List String → Option String → Bool
is_usable seen none = false
is_usable seen (some id) = not (id == "") && not (member id seen)

-- The loops over accounts and over pools: what they make, the ids met, and how many were issued.
pub record Issued {ℓ} (A : Type ℓ) : Type ℓ where
  pub made : A
  pub seen : List String
  pub count : ℕ

abbrev pub keep_or_issue : Bool → Option String → String → String
keep_or_issue true (some id) uuid = id
keep_or_issue true none uuid = uuid
keep_or_issue false id uuid = uuid

module _ {F : Type 0} where
  unfoldable pub issue_ids :
      (ℕ → String) → List (AccountConfig F) → List String → ℕ → Issued (List (AccountConfig F))
  issue_ids uuid [] seen n = record { made = []; seen = seen; count = n }
  issue_ids uuid (a ∷ accounts) seen n =
      let usable = is_usable seen a.id in
      let id = keep_or_issue usable a.id (uuid n) in
      let rest = issue_ids uuid accounts (id ∷ seen) (if usable then n else n + 1) in
      record rest { made = record a { id = some id } ∷ rest.made }

  unfoldable pub issue_pools :
      (ℕ → String) → Map (PoolConfig F) → List String → ℕ → Issued (Map (PoolConfig F))
  unfolding issue_ids
  issue_pools uuid [] seen n = record { made = []; seen = seen; count = n }
  issue_pools uuid ((name, p) ∷ pools) seen n =
      let first = issue_ids uuid p.accounts seen n in
      let rest = issue_pools uuid pools first.seen first.count in
      record rest { made = (name, record p { accounts = first.made }) ∷ rest.made }

  -- `Config::ensure_account_ids`: the config, and whether an id was issued or replaced.
  unfoldable pub ensure_account_ids : (ℕ → String) → Config F → Config F × Bool
  unfolding issue_pools
  ensure_account_ids uuid cfg =
      let issued = issue_pools uuid cfg.pools [] 0 in
      (record cfg { pools = issued.made }, ltb 0 issued.count)
