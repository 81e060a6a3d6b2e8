-- ===== src/Body/Rewrites.antt =====
-- src/proxy/body.rs: the uuid in a body's metadata, and all rewrites of a body together.
use Prim.Native.String.{◌++◌, len}
use mathlib.Core.Option
use corrall.Prelude.{
  String, Bool, true, false, ◌||◌, List, Option, none, some, eqb, if◌then◌else◌, ◌==◌,
}
use corrall.Prelude.Texts.{strip_prefix}
use corrall.Prelude.Maps.{Map}
use corrall.Prelude.Json.{Fields, obj, str, get, get_field, set_field, as_str, as_object}
use corrall.Body.{sanitize_tool_pairs, rewrite_model, strip_fields}

-- The text before and after the first place where a text stands.
unfoldable pub split_first : String → String → Option (String × String)
unfolding strip_prefix
split_first needle String.[] = Option.map (λ rest. ("", rest)) (strip_prefix "" needle)
split_first needle (String.◌∷◌ c s) =
    let later = split_first needle s in
    elim (strip_prefix (String.◌∷◌ c s) needle) [
      | some rest ↦ some ("", rest)
      | none ↦ Option.map (λ (p : String × String). (String.◌∷◌ c p.0, p.1)) later
    ]

abbrev pub uuid_key : String
uuid_key = "\"account_uuid\":\""

-- The id of the user with another uuid in it, if there is one and it is another.
unfoldable pub patched_user : String → String → Option String
unfolding split_first
patched_user uuid user = elim (split_first uuid_key user) [
  | none ↦ none
  | some (before, rest) ↦ elim (split_first "\"" rest) [
    | none ↦ none
    | some (old, tail) ↦
        if old == uuid then none else some (before ++ (uuid_key ++ (uuid ++ ("\"" ++ tail))))
  ]
]

-- The body that is sent.
pub data Outgoing (F : Type 0) : Type 0 where
  as_received : Outgoing F
  encoded : Fields F → Outgoing F

module _ {F : Type 0} where
  abbrev pub user_of : Fields F → Option String
  user_of m = Option.bind (Option.bind (get_field "metadata" m) (get "user_id")) as_str

  abbrev pub set_user : String → Fields F → Fields F
  set_user user m = elim (Option.bind (get_field "metadata" m) as_object) [
    | none ↦ m
    | some md ↦ set_field "metadata" (obj (set_field "user_id" (str user) md)) m
  ]

  unfoldable pub patch_account_uuid : String → Fields F → Fields F × Bool
  unfolding patched_user
  patch_account_uuid uuid m =
      if eqb (len uuid) 36
      then elim (Option.bind (user_of m) (patched_user uuid)) [
        | none ↦ (m, false)
        | some user ↦ (set_user user m, true)
      ]
      else (m, false)

  abbrev pub patch_for : Option String → Fields F × Bool → Fields F × Bool
  patch_for none r = r
  patch_for (some uuid) (m, changed) = let r = patch_account_uuid uuid m in (r.0, changed || r.1)

  abbrev pub repair : Bool → Option String → Fields F → Fields F × Bool
  repair false uuid m = (m, false)
  repair true uuid m = patch_for uuid (sanitize_tool_pairs m)

  -- `apply_all`: the rewrites of a body that was parsed.
  unfoldable pub apply_all :
      Option (Fields F) → Option String → Bool → Map String → List String → Outgoing F
  unfolding patch_account_uuid
  apply_all parsed uuid anthropic_shaped model_map strip = elim parsed [
    | none ↦ as_received
    | some p ↦
        let a = repair anthropic_shaped uuid p in
        let b = rewrite_model model_map a.0 in
        let c = strip_fields strip b.0 in if (a.1 || b.1) || c.1 then encoded c.0 else as_received
  ]
