-- ===== src/Tests/Bodies.antt =====
-- Witnesses for the repair of bodies.
use mathlib.Core.Option
use corrall.Prelude.{String, ◌≡◌, refl, true, List, [], ◌∷◌, none, some}
use corrall.Prelude.Json.{
  Json, Fields, arr, obj, str, end, field, of_list, get, get_field, set_field, as_array, as_str,
}
use corrall.Body.{sanitize_tool_pairs, repair_messages, repaired, kept_blocks, ids_of, is_matched}
use corrall.Body.Answers.{all_answer}
use corrall.Body.Whole.{sanitize_tool_pairs-answer}
use corrall.Prelude.Texts.{strip_prefix}
use corrall.Body.Rewrites.{patched_user, split_first}

abbrev block : String → String → String → Json String
block type key id = obj (field "type" (str type) (field key (str id) end))

abbrev message : String → List (Json String) → Json String
message role blocks = obj (field "role" (str role) (field "content" (arr (of_list blocks)) end))

-- The second result answers nothing.
abbrev orphaned : Fields String
orphaned =
    field "messages"
      (arr (
        of_list (
          message "assistant" (block "tool_use" "id" "t1" ∷ [])
          ∷ message "user"
              (block "tool_result" "tool_use_id" "t1" ∷ block "tool_result" "tool_use_id" "t2" ∷ [])
          ∷ [])))
      end

abbrev repaired_messages : List (Json String)
repaired_messages =
    message "assistant" (block "tool_use" "id" "t1" ∷ [])
    ∷ message "user" (block "tool_result" "tool_use_id" "t1" ∷ [])
    ∷ []

sanitize_tool_pairs-answer_example : all_answer none repaired_messages ≡ true
unfolding sanitize_tool_pairs repair_messages repaired kept_blocks ids_of is_matched get get_field
    set_field as_array as_str Option.bind
sanitize_tool_pairs-answer_example = sanitize_tool_pairs-answer orphaned repaired_messages refl

-- The uuid in the id of the user is replaced.
uuid_patched :
    patched_user "bbbbbbbb-bbbb-bbbb-bbbb-bbbbbbbbbbbb"
      "{\"device_id\":\"x\",\"account_uuid\":\"aaaaaaaa-aaaa-aaaa-aaaa-aaaaaaaaaaaa\"}"
    ≡ some "{\"device_id\":\"x\",\"account_uuid\":\"bbbbbbbb-bbbb-bbbb-bbbb-bbbbbbbbbbbb\"}"
unfolding patched_user split_first strip_prefix
uuid_patched = refl
