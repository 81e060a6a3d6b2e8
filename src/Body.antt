-- ===== src/Body.antt =====
-- src/proxy/body.rs: the repair of a request body before it is forwarded.
-- The loop over the messages carries the last message of its output, and returns what it adds.
pub mod Answers
pub mod Whole
pub mod Rewrites
use mathlib.Core.Option
use corrall.Prelude.{
  ℕ, String, Bool, true, false, not, ◌&&◌, ◌||◌, List, [], ◌∷◌, Option, none, some, any, keep, eqb,
  length, if◌then◌else◌, ◌==◌,
}
use corrall.Prelude.Json.{
  Json, Fields, arr, obj, str, of_list, get, get_field, set_field, remove_field, text_at, as_str,
  as_array,
}
use corrall.Prelude.Maps.{Map, lookup}
use corrall.Session.{member}

module _ {F : Type 0} where
  abbrev pub has_text : String → String → Json F → Bool
  has_text k s v = elim (text_at k v) [ none ↦ false | some t ↦ t == s ]

  abbrev pub role : Json F → String
  role msg = Option.get_or (text_at "role" msg) ""

  abbrev pub blocks_of : Json F → Option (List (Json F))
  blocks_of msg = Option.bind (get "content" msg) as_array

  -- The ids of the blocks of a type, under the given key.
  unfoldable pub ids_of : String → String → List (Json F) → List String
  ids_of type key [] = []
  ids_of type key (b ∷ blocks) =
      let rest = ids_of type key blocks in
      if has_text "type" type b
      then elim (text_at key b) [ none ↦ rest | some id ↦ id ∷ rest ]
      else rest

  abbrev pub tool_use_ids : List (Json F) → List String
  tool_use_ids blocks = ids_of "tool_use" "id" blocks

  -- The ids in the content of a message of a role.
  abbrev pub ids_in : String → String → String → Option (Json F) → List String
  ids_in who type key none = []
  ids_in who type key (some msg) =
      if has_text "role" who msg
      then elim (blocks_of msg) [ none ↦ [] | some blocks ↦ ids_of type key blocks ]
      else []

  -- A block of another type, or one whose id is among `ids`.
  unfoldable pub is_matched : String → String → List String → Json F → Bool
  is_matched type key ids b =
      not (has_text "type" type b)
      || elim (text_at key b) [ none ↦ false | some id ↦ member id ids ]

  abbrev pub first_message : List (Json F) → Option (Json F)
  first_message [] = none
  first_message (m ∷ ms) = some m

  -- The blocks that stay, or `none` where the message is passed on without a look at them.
  unfoldable pub kept_blocks :
      Option (Json F) → Json F → List (Json F) → List (Json F) → Option (List (Json F))
  unfolding is_matched ids_of
  kept_blocks last msg next blocks =
      if role msg == "assistant"
      then elim (tool_use_ids blocks) [
        | [] ↦ none
        | id ∷ ids ↦ some (
            keep
              (is_matched "tool_use" "id"
                (ids_in "user" "tool_result" "tool_use_id" (first_message next)))
              blocks)
      ]
      else if role msg == "user"
      then some (
          keep (is_matched "tool_result" "tool_use_id" (ids_in "assistant" "tool_use" "id" last))
            blocks)
      else none

  -- `nm["content"] = …`
  abbrev pub with_content : List (Json F) → Json F → Json F
  with_content blocks (obj fs) = obj (set_field "content" (arr (of_list blocks)) fs)
  with_content blocks v = v

  -- What becomes of a message: itself, nothing, or itself with fewer blocks.
  unfoldable pub repaired : Option (Json F) → Json F → List (Json F) → Option (Json F) × Bool
  unfolding kept_blocks set_field
  repaired last msg next = elim (blocks_of msg) [
    | none ↦ (some msg, false)
    | some blocks ↦ elim (kept_blocks last msg next blocks) [
      | none ↦ (some msg, false)
      | some kept ↦
          if eqb (length kept) (length blocks)
          then (some msg, false)
          else elim kept [ [] ↦ (none, true) | b ∷ bs ↦ (some (with_content (b ∷ bs) msg), true) ]
    ]
  ]

  abbrev pub or_last : Option (Json F) → Option (Json F) → Option (Json F)
  or_last (some m) last = some m
  or_last none last = last

  abbrev pub push : Option (Json F) → List (Json F) → List (Json F)
  push (some m) out = m ∷ out
  push none out = out

  unfoldable pub repair_messages : Option (Json F) → List (Json F) → List (Json F) × Bool
  unfolding repaired
  repair_messages last [] = ([], false)
  repair_messages last (msg ∷ next) =
      let fate = repaired last msg next in
      let rest = repair_messages (or_last fate.0 last) next in
      (push fate.0 rest.0, fate.1 || rest.1)

  -- The body, and whether it changed.
  unfoldable pub sanitize_tool_pairs : Fields F → Fields F × Bool
  unfolding repair_messages set_field
  sanitize_tool_pairs m = elim (Option.bind (get_field "messages" m) as_array) [
    | none ↦ (m, false)
    | some messages ↦
        let result = repair_messages none messages in
        if result.1 then (set_field "messages" (arr (of_list result.0)) m, true) else (m, false)
  ]

  unfoldable pub rewrite_model : Map String → Fields F → Fields F × Bool
  rewrite_model map m =
      elim (Option.bind (Option.bind (get_field "model" m) as_str) (λ model. lookup model map)) [
        | none ↦ (m, false)
        | some target ↦ (set_field "model" (str target) m, true)
      ]

  unfoldable pub strip_fields : List String → Fields F → Fields F × Bool
  strip_fields [] m = (m, false)
  strip_fields (f ∷ fields) m =
      let rest = strip_fields fields (remove_field f m) in
      elim (get_field f m) [ none ↦ rest | some v ↦ (rest.0, true) ]
