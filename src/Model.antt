-- ===== src/Model.antt =====
-- src/model.rs: model families, the weekly bucket that governs a model, and route globs.
-- A model name and a glob are the bytes of the source's `&str`.
pub mod Glob
pub mod Requests
use corrall.Prelude.{
  ℕ, ◌≡◌, refl, String, Bool, true, false, ◌||◌, List, [], ◌∷◌, Option, none, some, eqb, any,
  if◌then◌else◌, ◌==◌, arith,
}
use corrall.Prelude.Bytes.{Bytes, codes, lower, lowercase, contains}

pub data Family : Type 0 where
  fable sonnet opus haiku other : Family

-- `Family::of` on the lowercased name.
family_of_lower : Bytes → Family
unfolding contains
family_of_lower l =
    if contains l (codes "fable")
    then Family.fable
    else if contains l (codes "sonnet")
    then Family.sonnet
    else if contains l (codes "opus")
    then Family.opus
    else if contains l (codes "haiku")
    then Family.haiku
    else Family.other

unfoldable pub family_of : Option Bytes → Family
unfolding family_of_lower lowercase lower
family_of none = Family.other
family_of (some m) = family_of_lower (lowercase m)

pub label : Family → String
label Family.fable = "fable"
label Family.sonnet = "sonnet"
label Family.opus = "opus"
label Family.haiku = "haiku"
label Family.other = "other"

abbrev pub bucket_5h : String
bucket_5h = "unified5h"

abbrev pub bucket_7d : String
bucket_7d = "unified7d"

abbrev pub bucket_7d_fable : String
bucket_7d_fable = "unified7dFable"

abbrev pub bucket_7d_sonnet : String
bucket_7d_sonnet = "unified7dSonnet"

abbrev pub weekly_buckets : List String
weekly_buckets = bucket_7d ∷ bucket_7d_fable ∷ bucket_7d_sonnet ∷ []

abbrev pub family_bucket : Family → String
family_bucket Family.fable = bucket_7d_fable
family_bucket Family.sonnet = bucket_7d_sonnet
family_bucket Family.opus = bucket_7d
family_bucket Family.haiku = bucket_7d
family_bucket Family.other = bucket_7d

-- The weekly bucket that governs a model.
unfoldable pub weekly_bucket_for : Option Bytes → String
unfolding family_of
weekly_bucket_for model = family_bucket (family_of model)

pub is_weekly_bucket : String → Bool
is_weekly_bucket b = any (λ w. w == b) weekly_buckets

-- `u8::eq_ignore_ascii_case`
unfoldable pub eq_ignore_case : ℕ → ℕ → Bool
unfolding lower
eq_ignore_case a b = eqb (lower a) (lower b)

-- Whether some suffix passes: `(0..=m.len()).any(|i| p(&m[i..]))`.
abbrev pub any_suffix : (Bytes → Bool) → Bytes → Bool
any_suffix p [] = p []
any_suffix p (c ∷ m) = p (c ∷ m) || any_suffix p m

abbrev pub glob_star : ℕ
glob_star = b'*'

-- Whether the first bytes agree and the rest passes.
abbrev pub match_first : (Bytes → Bool) → ℕ → Bytes → Bool
match_first p gc [] = false
match_first p gc (mc ∷ m) = if eq_ignore_case gc mc then p m else false

-- Shell-style glob where `*` is the only wildcard; case-insensitive.
unfoldable pub glob_matches : Bytes → Bytes → Bool
unfolding eq_ignore_case
glob_matches [] [] = true
glob_matches [] (c ∷ m) = false
glob_matches (gc ∷ g) m =
    if eqb gc glob_star then any_suffix (glob_matches g) m else match_first (glob_matches g) gc m

unfoldable pub any_glob_matches : List Bytes → Bytes → Bool
any_glob_matches globs model = any (λ g. glob_matches g model) globs

pub family_bucket_weekly : (f : Family) → is_weekly_bucket (family_bucket f) ≡ true
unfolding is_weekly_bucket
family_bucket_weekly Family.fable = refl
family_bucket_weekly Family.sonnet = refl
family_bucket_weekly Family.opus = refl
family_bucket_weekly Family.haiku = refl
family_bucket_weekly Family.other = refl
