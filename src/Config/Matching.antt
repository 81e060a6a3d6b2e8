-- ===== src/Config/Matching.antt =====
-- src/pool_match.rs: the pool of a launch, by the directory, the git remote and the environment. A
-- path is one of Unix, its pieces between slashes from the end; `git`, the environment and the
-- regular expressions are in `LaunchEnv`.
pub mod Rules
pub mod First
use mathlib.Core.Option
use corrall.Prelude.{
  ℕ, String, Bool, true, false, not, ◌&&◌, ◌||◌, List, [], ◌∷◌, ◌++◌, Option, none, some, eqb,
  if◌then◌else◌, ◌==◌,
}
use corrall.Prelude.Bytes.{Bytes, codes, trim, bytes_eq, split_once}
use corrall.Prelude.Maps.{Map}
use mathlib.Core.List.{reverse}
use corrall.Quota.{or_else}
use corrall.Config.Pools.{Config, PoolConfig, PoolMatch, is_blank}

-- `is_match` is false for what is no regular expression; `current_dir` is that of the process.
pub record LaunchEnv : Type 0 where
  pub cwd : Bytes
  pub current_dir : Bytes
  pub getenv : String → Option String
  pub remote : Bytes → Option String
  pub is_match : String → String → Bool
  pub home : Option Bytes

-- The rule that chose a pool.
pub data MatchReason : Type 0 where
  path : String → MatchReason
  remote_is : String → MatchReason
  env_is_set : String → MatchReason
  env_is : String → String → MatchReason

-- A pool, and why; no reason for the default pool.
pub record Choice : Type 0 where
  pub pool : String
  pub reason : Option MatchReason

-- `trim_end_matches("/**")` and `trim_end_matches("/*")`, on the text from its end.
unfoldable pub drop_deep : Bytes → Bytes
drop_deep (a ∷ b ∷ c ∷ s) =
    let rest = drop_deep s in
    if eqb a b'*' && (eqb b b'*' && eqb c b'/') then rest else a ∷ b ∷ c ∷ s
drop_deep s = s

unfoldable pub drop_flat : Bytes → Bytes
drop_flat (a ∷ b ∷ s) =
    let rest = drop_flat s in if eqb a b'*' && eqb b b'/' then rest else a ∷ b ∷ s
drop_flat s = s

abbrev pub drop_stars : Bytes → Bytes
drop_stars p = reverse (drop_flat (drop_deep (reverse p)))

-- The pieces of a path between its slashes.
unfoldable pub pieces : Bytes → List Bytes
pieces [] = [] ∷ []
pieces (c ∷ s) = elim (pieces s) [
  | [] ↦ (c ∷ []) ∷ []
  | p ∷ ps ↦ if eqb c b'/' then [] ∷ p ∷ ps else (c ∷ p) ∷ ps
]

abbrev pub tail_of : List Bytes → List Bytes
tail_of [] = []
tail_of (p ∷ ps) = ps

-- The components, the last first: `..` takes one away, `.` and an empty piece are nothing.
unfoldable pub walk : List Bytes → List Bytes → List Bytes
walk out [] = out
walk out (p ∷ ps) =
    if is_blank p || bytes_eq p (codes ".")
    then walk out ps
    else if bytes_eq p (codes "..")
    then walk (tail_of out) ps
    else walk (p ∷ out) ps

abbrev pub is_absolute : Bytes → Bool
is_absolute [] = false
is_absolute (c ∷ s) = eqb c b'/'

-- `PathBuf::join`
abbrev pub join : Bytes → Bytes → Bytes
join base p = if is_absolute p then p else base ++ (b'/' ∷ p)

-- `oauth::expand_home`
unfoldable pub expand_home : Option Bytes → Bytes → Bytes
expand_home (some home) (a ∷ b ∷ rest) =
    if eqb a b'~' && eqb b b'/' then join home rest else a ∷ b ∷ rest
expand_home home p = p

-- The components of a directory, from the root.
unfoldable pub clean_dir : LaunchEnv → Bytes → Option (List Bytes)
unfolding pieces walk expand_home
clean_dir env dir =
    let full = join env.current_dir (expand_home env.home (trim dir)) in
    if is_blank (trim dir) then none else some (reverse (walk [] (pieces full)))

-- `Path::starts_with`
unfoldable pub is_under : List Bytes → List Bytes → Bool
is_under dir [] = true
is_under [] (p ∷ ps) = false
is_under (d ∷ ds) (p ∷ ps) = bytes_eq d p && is_under ds ps

unfoldable pub match_path : LaunchEnv → List Bytes → List String → Option MatchReason
unfolding clean_dir drop_deep drop_flat
match_path env cwd [] = none
match_path env cwd (p ∷ ps) =
    let rest = match_path env cwd ps in
    elim (clean_dir env (drop_stars (codes p))) [
      | none ↦ rest
      | some dir ↦ if is_under cwd dir then some (path p) else rest
    ]

unfoldable pub match_remote : LaunchEnv → String → List String → Option MatchReason
match_remote env url [] = none
match_remote env url (r ∷ rs) =
    let rest = match_remote env url rs in if env.is_match r url then some (remote_is r) else rest

abbrev pub set_value : Option String → Option String
set_value none = none
set_value (some v) = if v == "" then none else some v

unfoldable pub match_env : LaunchEnv → Map String → Option MatchReason
match_env env [] = none
match_env env ((k, pat) ∷ rules) =
    let rest = match_env env rules in
    elim (set_value (env.getenv k)) [
      | none ↦ rest
      | some v ↦
          if pat == ""
          then some (env_is_set k)
          else if env.is_match pat v
          then some (env_is k pat)
          else rest
    ]

-- Why the rules match, if they do.
unfoldable pub match_reason : PoolMatch → LaunchEnv → Option MatchReason
unfolding match_path match_remote match_env
match_reason m env =
    or_else (Option.bind (clean_dir env env.cwd) (λ cwd. match_path env cwd m.paths)) (
      or_else (Option.bind (set_value (env.remote env.cwd)) (λ url. match_remote env url m.remotes))
        (match_env env m.env))

module _ {F : Type 0} where
  -- Why a pool that is not the default one is to be chosen, if it is.
  abbrev pub claims : LaunchEnv → String → String × PoolConfig F → Option MatchReason
  claims env default e =
      if e.0 == default then none else Option.bind e.1.match_rules (λ m. match_reason m env)

  unfoldable pub first_match : LaunchEnv → String → Map (PoolConfig F) → Option Choice
  unfolding match_reason
  first_match env default [] = none
  first_match env default (e ∷ pools) =
      let rest = first_match env default pools in
      elim (claims env default e) [
        | some r ↦ some (record { pool = e.0; reason = some r })
        | none ↦ rest
      ]

  -- `resolve`
  unfoldable pub resolve : Config F → LaunchEnv → Choice
  unfolding first_match
  resolve cfg env =
      Option.get_or (first_match env cfg.default_pool cfg.pools)
        (record { pool = cfg.default_pool; reason = none })
