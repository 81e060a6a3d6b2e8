-- ===== src/Config/Matching/First.antt =====
-- src/pool_match.rs: which pool a launch gets.
use mathlib.Core.Option
use corrall.Prelude.{
  String, ◌≡◌, Bool, true, false, ◌∷◌, ◌++◌, Option, none, some, all, not, ◌&&◌, ◌==◌,
}
use corrall.Prelude.Maps.{Map}
use corrall.Config.Pools.{Config, PoolConfig}
use corrall.Config.Matching.{LaunchEnv, MatchReason, Choice, match_reason}
use corrall.Config.Matching.Rules.{holds_for}

module _ {F : Type 0} where
  -- The pool is not the default one, and a rule of its own holds.
  abbrev pub may_take : LaunchEnv → String → String × PoolConfig F → Bool
  may_take env default (name, p) =
      not (name == default) && elim p.match_rules [ none ↦ false | some m ↦ holds_for env m ]

  abbrev pub is_passed : LaunchEnv → String → String × PoolConfig F → Bool
  is_passed env default e = not (may_take env default e)

  abbrev pub Justified :
      LaunchEnv → String → Map (PoolConfig F) → String → Option MatchReason → Type 0
  Justified env default pools pool none =
      (pool ≡ default) × (all (is_passed env default) pools ≡ true)
  Justified env default pools pool (some r) =
      (before : Map (PoolConfig F)) × (p : PoolConfig F) × (after : Map (PoolConfig F)) × (pools
        ≡ before ++ ((pool, p) ∷ after))
      × (may_take env default (pool, p) ≡ true)
      × (Option.bind p.match_rules (λ m. match_reason m env) ≡ some r)
      × (all (is_passed env default) before ≡ true)

  -- The pool may take the launch, for the reason that is given, and none before it may; or no pool
  -- may, and the default pool is chosen.
  abbrev pub IsFirst : LaunchEnv → String → Map (PoolConfig F) → Choice → Type 0
  IsFirst env default pools c = Justified env default pools c.pool c.reason
