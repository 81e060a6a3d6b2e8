-- ===== src/Config/Pools.antt =====
-- src/config.rs: the pools of the config file. A BTreeMap is a list in the order of its keys.
pub mod Ids
pub mod Names
pub mod Handles
use mathlib.Core.Option
use Prim.Native.String.{len}
use corrall.Prelude.{
  ℕ, ◌+◌, String, Bool, true, false, not, ◌&&◌, ◌||◌, List, [], ◌∷◌, ◌++◌, Option, none, some, ltb,
  leb, eqb, all, keep, map, length, if◌then◌else◌, ◌==◌,
}
use corrall.Prelude.Int.{ℤ}
use corrall.Prelude.Bytes.{Bytes, codes, trim, is_digit, starts_with, split_once, bytes_eq}
use corrall.Prelude.Float.{Float}
use corrall.Prelude.Json.{Json}
use corrall.Prelude.Maps.{Map, lookup, insert_sorted, remove, has_key}
use corrall.Config.{
  Threshold, AccountConfig, RouteConfig, ExpiryRouting, StormRamp, is_text, single,
  default_switch_threshold,
}
use corrall.Session.{member}

abbrev pub default_pool_name : String
default_pool_name = "default"

abbrev pub max_pool_name_len : ℕ
max_pool_name_len = 32

pub record PoolMatch : Type 0 where
  pub paths : List String
  pub remotes : List String
  pub env : Map String

pub record PoolConfig (F : Type 0) : Type 0 where
  pub switch_threshold : Threshold F
  pub hold_seconds : ℕ
  pub distribute_sessions : Bool
  pub quota_probe_seconds : ℕ
  pub blocked_models : List Bytes
  pub accounts : List (AccountConfig F)
  pub routes : List RouteConfig
  pub storm_ramp : StormRamp
  pub expiry_routing : ExpiryRouting F
  pub soonest_reset : Bool
  pub match_rules : Option PoolMatch
  pub extra : Map (Json F)

-- The part of the file that the pools and the fleet read.
pub record Config (F : Type 0) : Type 0 where
  pub upstream : String
  pub default_pool : String
  pub pools : Map (PoolConfig F)
  pub warmup_seconds : ℕ

abbrev pub is_blank : Bytes → Bool
is_blank [] = true
is_blank (c ∷ s) = false

module _ {F : Type 0} ⦃fl : Float F⦄ where
  unfoldable pub new_pool : PoolConfig F
  new_pool = record {
    switch_threshold = single (fl.decimal 98 2);
    hold_seconds = 0;
    distribute_sessions = false;
    quota_probe_seconds = 0;
    blocked_models = [];
    accounts = [];
    routes = [];
    storm_ramp = record {
      enabled = true;
      start_conc = 1;
      step_conc = 1;
      step_ms = 250;
      window_ms = 30000;
    };
    expiry_routing = record { enabled = false; tolerance = fl.decimal 15 1; preempt = true };
    soonest_reset = false;
    match_rules = none;
    extra = [];
  }

  abbrev pub first_pool : Map (PoolConfig F) → Option (PoolConfig F)
  first_pool [] = none
  first_pool ((name, p) ∷ pools) = some p

  abbrev pub or_pool : Option (PoolConfig F) → PoolConfig F → PoolConfig F
  or_pool none p = p
  or_pool (some q) p = q

  -- `Config::pool_or_default`
  unfoldable pub pool_or_default : Option String → Config F → PoolConfig F
  unfolding new_pool
  pool_or_default name cfg =
      or_pool (Option.bind name (λ n. lookup n cfg.pools))
        (or_pool (lookup cfg.default_pool cfg.pools) (or_pool (first_pool cfg.pools) new_pool))

  -- `Config::ensure_pools`
  abbrev pub adopt_first : Config F → Map (PoolConfig F) → Config F
  adopt_first cfg [] = record cfg { pools = insert_sorted cfg.default_pool new_pool [] }
  adopt_first cfg ((name, p) ∷ pools) =
      if has_key cfg.default_pool ((name, p) ∷ pools)
      then cfg
      else record cfg { default_pool = name }

  unfoldable pub ensure_pools : Config F → Config F
  unfolding new_pool trim
  ensure_pools cfg =
      let named =
        if is_blank (trim (codes cfg.default_pool))
        then record cfg { default_pool = default_pool_name }
        else cfg in
      adopt_first named named.pools
