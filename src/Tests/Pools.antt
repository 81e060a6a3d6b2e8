-- ===== src/Tests/Pools.antt =====
-- Witnesses for the names of pools and the handles of accounts.
use corrall.Prelude.{false, some, ℕ, ◌≡◌, refl, [], ◌∷◌, none}
use corrall.Prelude.Bytes.{codes, trim}
use corrall.Prelude.Maps.{lookup, insert_sorted, remove}
use corrall.Config.Pools.{PoolConfig, Config, new_pool}
use corrall.Config.Pools.Names.{name_error, rename_pool}
use corrall.Config.Pools.Names.Renames.{rename_pool-lookup}
use mathlib.Core.Option
use corrall.Prelude.Bytes.{bytes_eq, trim_start, is_whitespace}
use corrall.Config.Matching.{
  LaunchEnv, path, resolve, first_match, match_reason, match_path, clean_dir, pieces, walk,
  expand_home, drop_deep, drop_flat, is_under,
}
use corrall.Tests.Fixtures.{fixed}
use corrall.Tests.Logins.{listed, one_pool}

abbrev kept : Config ℕ
kept = one_pool (listed ∷ [])

abbrev renamed : Config ℕ
renamed = record kept {
  default_pool = "team";
  pools = ("team", record new_pool { accounts = listed ∷ [] }) ∷ [];
}

rename_pool-lookup_example :
    (name_error "team" ≡ none)
    × (lookup "team" kept.pools ≡ none)
    × (lookup "default" renamed.pools ≡ none)
    × (lookup "team" renamed.pools ≡ lookup "default" kept.pools)
unfolding rename_pool name_error lookup insert_sorted remove new_pool
rename_pool-lookup_example =
    rename_pool-lookup "default" "team" "default" kept renamed refl refl refl

-- A launch in a directory under that of a rule.
abbrev in_project : LaunchEnv
in_project = record {
  cwd = codes "/home/me/work/src";
  current_dir = codes "/home/me/work/src";
  getenv = λ k. none;
  remote = λ d. none;
  is_match = λ r s. false;
  home = some (codes "/home/me");
}

abbrev ruled : PoolConfig ℕ
ruled = record new_pool {
  match_rules = some (record { paths = "~/work/**" ∷ []; remotes = []; env = [] });
}

abbrev two_pools : Config ℕ
two_pools = record kept { pools = ("default", new_pool) ∷ ("team", ruled) ∷ [] }

chosen_by_path :
    resolve two_pools in_project ≡ record { pool = "team"; reason = some (path "~/work/**") }
unfolding resolve first_match match_reason match_path clean_dir pieces walk expand_home drop_deep
    drop_flat is_under trim trim_start is_whitespace bytes_eq Option.bind new_pool
chosen_by_path = refl
