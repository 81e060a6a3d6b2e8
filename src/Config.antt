-- ===== src/Config.antt =====
-- src/config.rs: the settings that the fleet reads. Names of models and globs are byte lists.
pub mod Pools
pub mod Matching
use mathlib.Core.Option
use corrall.Prelude.{ℕ, String, Bool, false, List, Option, none, some, if◌then◌else◌, ◌==◌}
use corrall.Prelude.Int.{ℤ}
use corrall.Prelude.Bytes.{Bytes}
use corrall.Prelude.Float.{Float, clamp}
use corrall.Prelude.Maps.{Map, lookup}

-- A per-bucket table or a single number.
pub data Threshold (F : Type 0) : Type 0 where
  single : F → Threshold F
  table : Map F → Threshold F

pub data AccountType : Type 0 where
  oauth apikey : AccountType

-- One account as the file lists it.
pub record AccountConfig (F : Type 0) : Type 0 where
  pub id : Option String
  pub name : String
  pub kind : AccountType
  pub account_uuid : Option String
  pub org_uuid : Option String
  pub org_name : Option String
  pub email : Option String
  pub priority : ℤ
  pub disabled : Bool
  pub access_token : Option String
  pub refresh_token : Option String
  pub expires_at : Option ℤ
  pub refresh_token_expires_at : Option ℤ
  pub api_key : Option String
  pub import_from : Option String
  pub upstream : Option String
  pub model_map : Option (Map String)
  pub strip_request_fields : List String
  pub max_usage : Option (Threshold F)
  pub rate_limit_tier : Option String
  pub seat_tier : Option String
  pub subscription_type : Option String
  pub provider : Option String
  pub account_id : Option String
  pub plan_type : Option String

pub record ExpiryRouting (F : Type 0) : Type 0 where
  pub enabled : Bool
  pub tolerance : F
  pub preempt : Bool

pub record RouteConfig : Type 0 where
  pub name : String
  pub patterns : List Bytes
  pub accounts : List String
  pub bucket : Option String
  pub color : Option String

pub record StormRamp : Type 0 where
  pub enabled : Bool
  pub start_conc : ℕ
  pub step_conc : ℕ
  pub step_ms : ℕ
  pub window_ms : ℕ

-- `Option::as_deref() == Some(text)`
abbrev pub is_text : String → Option String → Bool
is_text t none = false
is_text t (some s) = s == t

unfoldable pub is_codex : {F : Type 0} → AccountConfig F → Bool
is_codex c = is_text "codex" c.provider

module _ {F : Type 0} ⦃fl : Float F⦄ where
  abbrev pub default_switch_threshold : F
  default_switch_threshold = fl.decimal 98 2

  unfoldable pub clamp01 : F → F
  unfolding clamp
  clamp01 v =
      if fl.is_finite v then clamp v (fl.decimal 0 0) (fl.decimal 1 0) else default_switch_threshold

  -- The entry of a bucket, or else that of `default`.
  unfoldable pub entry : Map F → String → Option F
  entry t bucket = elim (lookup bucket t) [ some v ↦ some v | none ↦ lookup "default" t ]

  -- Unlisted keys take `default`, and failing that the program's default.
  unfoldable pub for_bucket : Threshold F → String → F
  unfolding clamp01 entry
  for_bucket (single v) bucket = clamp01 v
  for_bucket (table t) bucket =
      Option.get_or (Option.map clamp01 (entry t bucket)) default_switch_threshold

  -- A cap table differs: an unlisted bucket is uncapped.
  unfoldable pub cap_for : Threshold F → String → Option F
  unfolding clamp01 entry
  cap_for (single v) bucket = some (clamp01 v)
  cap_for (table t) bucket = Option.map clamp01 (entry t bucket)
