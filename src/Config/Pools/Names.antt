-- ===== src/Config/Pools/Names.antt =====
-- src/config.rs: the names of pools, and the config under a new name.
pub mod Renames
use Prim.Native.String as Text
use Prim.Native.String.{len}
use corrall.Prelude.{
  ℕ, String, ◌≡◌, ◌≢◌, refl, sym, ◌∙◌, ap, Bool, true, false, not, ◌&&◌, ◌||◌, List, [], ◌∷◌, map,
  Option, none, some, all, keep, ltb, leb, eqb, if◌then◌else◌, ◌==◌, eq_iff, eq_refl, Bool-cases,
  inl, inr, subst,
}
use corrall.Prelude.Bytes.{Bytes, codes, is_digit, trim}
use corrall.Prelude.Float.{Float}
use corrall.Prelude.Maps.{
  Map, lookup, insert_sorted, remove, has_key, lookup-insert_sorted, lookup-remove,
}
use corrall.Prelude.Sort.{sort_by}
use corrall.Config.Pools.{
  Config, PoolConfig, max_pool_name_len, new_pool, ensure_pools, adopt_first, is_blank,
  default_pool_name,
}

-- The errors of the operations on pools.
pub data NameError : Type 0 where
  empty_name too_long bad_character bad_hyphen taken unknown : NameError

pub data Outcome {ℓ} (A : Type ℓ) : Type ℓ where
  ok : A → Outcome A
  err : NameError → Outcome A

abbrev pub may_name : ℕ → Bool
may_name c = (leb b'a' c && leb c b'z') || (is_digit c || eqb c b'-')

abbrev pub begins_hyphen : Bytes → Bool
begins_hyphen [] = false
begins_hyphen (c ∷ s) = eqb c b'-'

abbrev pub ends_hyphen : Bytes → Bool
ends_hyphen [] = false
ends_hyphen (c ∷ []) = eqb c b'-'
ends_hyphen (c ∷ d ∷ s) = ends_hyphen (d ∷ s)

-- `validate_pool_name`: what is wrong, if anything is.
unfoldable pub name_error : String → Option NameError
unfolding is_digit
name_error name =
    if eqb (len name) 0
    then some empty_name
    else if ltb max_pool_name_len (len name)
    then some too_long
    else if not (all may_name (codes name))
    then some bad_character
    else if begins_hyphen (codes name) || ends_hyphen (codes name)
    then some bad_hyphen
    else none

abbrev pub follow : String → String → String → String
follow old new default = if default == old then new else default

module _ {F : Type 0} where
  abbrev pub keys : Map (PoolConfig F) → List String
  keys pools = map (λ (e : String × PoolConfig F). e.0) pools

  -- `Config::pool_names`: the default pool first, the rest sorted.
  unfoldable pub pool_names : Config F → List String
  pool_names cfg =
      let names = sort_by Text.compare (keep (λ k. not (k == cfg.default_pool)) (keys cfg.pools)) in
      if has_key cfg.default_pool cfg.pools then cfg.default_pool ∷ names else names

  -- `Config::rename_pool`; on an error the config is as it was.
  unfoldable pub rename_pool : String → String → Config F → Outcome (Config F)
  unfolding name_error
  rename_pool old new cfg = if old == new then ok cfg else elim (name_error new) [
    | some e ↦ err e
    | none ↦ if has_key new cfg.pools then err taken else elim (lookup old cfg.pools) [
      | none ↦ err unknown
      | some pool ↦ ok (record cfg {
        pools = insert_sorted new pool (remove old cfg.pools);
        default_pool = follow old new cfg.default_pool;
      })
    ]
  ]

module _ {F : Type 0} ⦃fl : Float F⦄ where
  -- `Config::ensure_pool`: a pool that is there is left as it is.
  unfoldable pub ensure_pool : String → Config F → Outcome (Config F)
  unfolding name_error new_pool
  ensure_pool name cfg = elim (name_error name) [
    | some e ↦ err e
    | none ↦ ok (
        if has_key name cfg.pools
        then cfg
        else record cfg { pools = insert_sorted name new_pool cfg.pools })
  ]
