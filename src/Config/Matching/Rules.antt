-- ===== src/Config/Matching/Rules.antt =====
-- src/pool_match.rs: when a rule of a pool holds.
use mathlib.Core.Option
use corrall.Prelude.{
  String, ◌≡◌, refl, Bool, true, false, [], ◌∷◌, Option, none, some, any, ◌∙◌, ◌||◌, List, ◌==◌,
  if◌then◌else◌,
}
use corrall.Prelude.Maps.{Map}
use corrall.Prelude.Bytes.{Bytes, codes}
use corrall.Quota.{or_else}
use corrall.Config.Pools.{PoolMatch}
use corrall.Config.Matching.{
  LaunchEnv, MatchReason, path, remote_is, env_is_set, env_is, drop_stars, clean_dir, is_under,
  set_value, match_path, match_remote, match_env, match_reason,
}

abbrev pub is_some {ℓ} : {A : Type ℓ} → Option A → Bool
is_some none = false
is_some (some a) = true

-- What it is for a rule to hold.
abbrev path_holds : LaunchEnv → List Bytes → String → Bool
path_holds env cwd p = elim (clean_dir env (drop_stars (codes p))) [
  | none ↦ false
  | some dir ↦ is_under cwd dir
]

abbrev env_holds : LaunchEnv → String × String → Bool
env_holds env (k, pat) = elim (set_value (env.getenv k)) [
  | none ↦ false
  | some v ↦ pat == "" || env.is_match pat v
]

-- Some rule holds.
abbrev pub holds_for : LaunchEnv → PoolMatch → Bool
holds_for env m =
    elim (clean_dir env env.cwd) [ none ↦ false | some cwd ↦ any (path_holds env cwd) m.paths ]
    || (elim (set_value (env.remote env.cwd)) [
      | none ↦ false
      | some url ↦ any (λ r. env.is_match r url) m.remotes
    ]
        || any (env_holds env) m.env)

match_path-some :
    (env : LaunchEnv) (cwd : List Bytes) (ps : List String)
    → is_some (match_path env cwd ps) ≡ any (path_holds env cwd) ps
unfolding match_path
match_path-some env cwd [] = refl
match_path-some env cwd (p ∷ ps) =
    go (clean_dir env (drop_stars (codes p))) (match_path-some env cwd ps)
  where
    go :
        (o : Option (List Bytes))
        → is_some (match_path env cwd ps) ≡ any (path_holds env cwd) ps
        → is_some (elim o as (λ _. Option MatchReason) [
          | none ↦ match_path env cwd ps
          | some dir ↦ if is_under cwd dir then some (path p) else match_path env cwd ps
        ])
          ≡ (elim o as (λ _. Bool) [ none ↦ false | some dir ↦ is_under cwd dir ]
              || any (path_holds env cwd) ps)
    go none rest = rest
    go (some dir) rest = under (is_under cwd dir)
      where
        under :
            (t : Bool)
            → is_some (if t then some (path p) else match_path env cwd ps)
              ≡ (t || any (path_holds env cwd) ps)
        under true = refl
        under false = rest

match_remote-some :
    (env : LaunchEnv) (url : String) (rs : List String)
    → is_some (match_remote env url rs) ≡ any (λ r. env.is_match r url) rs
unfolding match_remote
match_remote-some env url [] = refl
match_remote-some env url (r ∷ rs) = go (env.is_match r url) (match_remote-some env url rs)
  where
    go :
        (t : Bool)
        → is_some (match_remote env url rs) ≡ any (λ r. env.is_match r url) rs
        → is_some (if t then some (remote_is r) else match_remote env url rs)
          ≡ (t || any (λ r. env.is_match r url) rs)
    go true rest = refl
    go false rest = rest

match_env-some :
    (env : LaunchEnv) (rules : Map String)
    → is_some (match_env env rules) ≡ any (env_holds env) rules
unfolding match_env
match_env-some env [] = refl
match_env-some env ((k, pat) ∷ rules) = go (set_value (env.getenv k)) (match_env-some env rules)
  where
    either :
        (t u : Bool) (x y : MatchReason)
        → is_some (match_env env rules) ≡ any (env_holds env) rules
        → is_some (if t then some x else if u then some y else match_env env rules)
          ≡ ((t || u) || any (env_holds env) rules)
    either true u x y rest = refl
    either false true x y rest = refl
    either false false x y rest = rest

    go :
        (o : Option String)
        → is_some (match_env env rules) ≡ any (env_holds env) rules
        → is_some (elim o as (λ _. Option MatchReason) [
          | none ↦ match_env env rules
          | some v ↦
              if pat == ""
              then some (env_is_set k)
              else if env.is_match pat v
              then some (env_is k pat)
              else match_env env rules
        ])
          ≡ (elim o as (λ _. Bool) [ none ↦ false | some v ↦ pat == "" || env.is_match pat v ]
              || any (env_holds env) rules)
    go none rest = rest
    go (some v) rest = either (pat == "") (env.is_match pat v) (env_is_set k) (env_is k pat) rest

or_else-some : {A : Type 0} (o p : Option A) → is_some (or_else o p) ≡ (is_some o || is_some p)
or_else-some none p = refl
or_else-some (some a) p = refl

bind-some :
    {A B : Type 0} (o : Option A) (f : A → Option B) (q : A → Bool)
    → ((a : A) → is_some (f a) ≡ q a)
    → is_some (Option.bind o f) ≡ elim o as (λ _. Bool) [ none ↦ false | some a ↦ q a ]
unfolding Option.bind
bind-some none f q h = refl
bind-some (some a) f q h = h a

pub match_reason-holds_for :
    (env : LaunchEnv) (m : PoolMatch) → is_some (match_reason m env) ≡ holds_for env m
unfolding match_reason
match_reason-holds_for env m =
    let paths = Option.bind (clean_dir env env.cwd) (λ cwd. match_path env cwd m.paths) in
    let remotes =
      Option.bind (set_value (env.remote env.cwd)) (λ url. match_remote env url m.remotes) in
    or_else-some paths (or_else remotes (match_env env m.env))
    ∙ rw
        (
          or_else-some remotes (match_env env m.env),
          bind-some (clean_dir env env.cwd) (λ cwd. match_path env cwd m.paths) _
              (λ cwd. match_path-some env cwd m.paths),
          bind-some (set_value (env.remote env.cwd)) (λ url. match_remote env url m.remotes) _
              (λ url. match_remote-some env url m.remotes),
          match_env-some env m.env,
        )
        refl
