-- ===== src/Config/Pools/Names/Renames.antt =====
-- src/config.rs: the default pool, and the pools under a new name.
use corrall.Prelude.{
  String, ◌≡◌, ◌≢◌, refl, sym, ◌∙◌, ap, Bool, true, false, [], ◌∷◌, Option, none, some,
  if◌then◌else◌, ◌==◌, eq_iff, eq_refl, Bool-cases, inl, inr, subst,
}
use corrall.Prelude.Bytes.{codes, trim}
use corrall.Prelude.Float.{Float}
use corrall.Prelude.Maps.{
  Map, lookup, insert_sorted, remove, has_key, lookup-insert_sorted, lookup-remove,
}
use corrall.Config.Pools.{
  Config, PoolConfig, new_pool, ensure_pools, adopt_first, is_blank, default_pool_name,
}
use corrall.Config.Pools.Names.{
  name_error, follow, rename_pool, NameError, Outcome, taken, unknown, ok, err,
}

differ : (s t : String) → s ≢ t → (s == t) ≡ false
differ s t h = elim (Bool-cases (s == t)) [
  | inl same ↦ absurd (h ((eq_iff s t).0 same))
  | inr other ↦ other
]

module _ {F : Type 0} ⦃fl : Float F⦄ where
  lookup_there :
      (k : String) (v : PoolConfig F) (pools : Map (PoolConfig F))
      → has_key k (insert_sorted k v pools) ≡ true
  lookup_there k v pools = rw (has_key, lookup-insert_sorted k k v pools, eq_refl k) refl

  first_there :
      (k : String) (v : PoolConfig F) (pools : Map (PoolConfig F))
      → has_key k ((k, v) ∷ pools) ≡ true
  unfolding lookup
  first_there k v pools = rw (has_key, eq_refl k) refl

  adopt_first-has_key :
      (cfg : Config F) (pools : Map (PoolConfig F))
      → cfg.pools ≡ pools
      → has_key (adopt_first cfg pools).default_pool (adopt_first cfg pools).pools ≡ true
  adopt_first-has_key cfg [] e = lookup_there cfg.default_pool new_pool []
  adopt_first-has_key cfg ((name, p) ∷ pools) e =
      go (has_key cfg.default_pool ((name, p) ∷ pools)) refl
    where
      go :
          (t : Bool)
          → has_key cfg.default_pool ((name, p) ∷ pools) ≡ t
          → has_key
              (if t then cfg else record cfg { default_pool = name }).default_pool
              (if t then cfg else record cfg { default_pool = name }).pools
            ≡ true
      go true there =
          subst (λ (m : Map (PoolConfig F)). has_key cfg.default_pool m ≡ true) (sym e) there
      go false gone =
          subst (λ (m : Map (PoolConfig F)). has_key name m ≡ true) (sym e)
            (first_there name p pools)

  -- After ensure_pools the default pool is one of the pools, so that a request that names no pool, or
  -- one that is not there, is served by it.
  pub ensure_pools-default :
      (cfg : Config F) → has_key (ensure_pools cfg).default_pool (ensure_pools cfg).pools ≡ true
  unfolding ensure_pools
  ensure_pools-default cfg =
      let named =
        if is_blank (trim (codes cfg.default_pool))
        then record cfg { default_pool = default_pool_name }
        else cfg in
      adopt_first-has_key named named.pools refl

module _ {F : Type 0} where
  -- What a rename that succeeds finds and makes.
  record Renamed (old new : String) (cfg cfg' : Config F) : Type 0 where
    pool : PoolConfig F
    good : name_error new ≡ none
    free : lookup new cfg.pools ≡ none
    found : lookup old cfg.pools ≡ some pool
    pools : cfg'.pools ≡ insert_sorted new pool (remove old cfg.pools)
    default : cfg'.default_pool ≡ follow old new cfg.default_pool

  rename_pool-Renamed :
      (old new : String) (cfg cfg' : Config F)
      → (old == new) ≡ false
      → rename_pool old new cfg ≡ ok cfg'
      → Renamed old new cfg cfg'
  unfolding rename_pool
  rename_pool-Renamed old new cfg cfg' apart h =
      check (name_error new) (lookup new cfg.pools) (lookup old cfg.pools) refl refl refl
        (rw apart at h)
    where
      check :
          (e : Option NameError) (n o : Option (PoolConfig F))
          → name_error new ≡ e
          → lookup new cfg.pools ≡ n
          → lookup old cfg.pools ≡ o
          → elim e as (λ _. Outcome (Config F)) [
            | some e ↦ err e
            | none ↦
                if elim n as (λ _. Bool) [ none ↦ false | some v ↦ true ]
                then err taken
                else elim o as (λ _. Outcome (Config F)) [
                  | none ↦ err unknown
                  | some pool ↦ ok (record cfg {
                    pools = insert_sorted new pool (remove old cfg.pools);
                    default_pool = follow old new cfg.default_pool;
                  })
                ]
          ]
            ≡ ok cfg'
          → Renamed old new cfg cfg'
      check (some e) n o p q r h = absurd (cc h)
      check none (some v) o p q r h = absurd (cc h)
      check none none none p q r h = absurd (cc h)
      check none none (some pool) p q r h =
          let same : record cfg {
            pools = insert_sorted new pool (remove old cfg.pools);
            default_pool = follow old new cfg.default_pool;
          }
              ≡ cfg' =
            cc h in
          record {
            pool = pool;
            good = p;
            free = q;
            found = r;
            pools = ap (λ (c : Config F). c.pools) (sym same);
            default = ap (λ (c : Config F). c.default_pool) (sym same);
          }

  absent-key :
      (k : String) (pools : Map (PoolConfig F)) → lookup k pools ≡ none → has_key k pools ≡ false
  absent-key k pools h = rw (has_key, h) refl

  default_followed :
      (old new default : String) (pool : PoolConfig F) (pools : Map (PoolConfig F))
      → lookup new pools ≡ none
      → lookup old pools ≡ some pool
      → has_key default pools ≡ true
      → lookup (follow old new default) (insert_sorted new pool (remove old pools))
        ≡ lookup default pools
  default_followed old new default pool pools free found there =
      elim (Bool-cases (default == old)) [
        | inl same ↦
            let moved : default ≡ old = (eq_iff default old).0 same in
            rw (follow, same, lookup-insert_sorted new new pool (remove old pools), eq_refl new)
              (sym (ap (λ k. lookup k pools) moved ∙ found))
        | inr other ↦
            rw
              (
                follow,
                other,
                lookup-insert_sorted new default pool (remove old pools),
                differ new default
                    (λ e. cc (ap (λ k. has_key k pools) e, absent-key new pools free, there)),
                lookup-remove old default pools,
                differ old default (λ e. cc (ap (λ k. default == k) e, other, eq_refl default)),
              )
              refl
      ]

  -- A rename that succeeds gives the pool a valid name that was free, takes it from its old name and
  -- changes no other pool; the default pool, which must be one of the pools, is the same pool after.
  pub rename_pool-lookup :
      (old new name : String) (cfg cfg' : Config F)
      → (old == new) ≡ false
      → has_key cfg.default_pool cfg.pools ≡ true
      → rename_pool old new cfg ≡ ok cfg'
      → (name_error new ≡ none)
        × (lookup new cfg.pools ≡ none)
        × (lookup name cfg'.pools ≡ (
            if new == name
            then lookup old cfg.pools
            else if old == name
            then none
            else lookup name cfg.pools))
        × (lookup cfg'.default_pool cfg'.pools ≡ lookup cfg.default_pool cfg.pools)
  rename_pool-lookup old new name cfg cfg' apart there h =
      let r = rename_pool-Renamed old new cfg cfg' apart h in
      (
        r.good,
        r.free,
        rw
            (
              r.pools,
              lookup-insert_sorted new name r.pool (remove old cfg.pools),
              lookup-remove old name cfg.pools,
              r.found,
            )
            refl,
        rw (r.pools, r.default)
            (default_followed old new cfg.default_pool r.pool cfg.pools r.free r.found there),
      )
