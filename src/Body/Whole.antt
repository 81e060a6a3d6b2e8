-- ===== src/Body/Whole.antt =====
-- src/proxy/body.rs: `sanitize_tool_pairs` on a whole body.
use mathlib.Core.Option
use corrall.Prelude.{
  ◌≡◌, refl, sym, subst, ◌∙◌, Bool, true, false, List, [], ◌∷◌, Option, none, some, length, eqb,
  arith, if◌then◌else◌,
}
use corrall.Prelude.Json.{
  Json, Fields, arr, of_list, to_list, to_list-of_list, get_field, set_field, as_array,
}
use corrall.Body.{
  blocks_of, kept_blocks, with_content, repaired, or_last, repair_messages, sanitize_tool_pairs,
}
use corrall.Body.Answers.{get_field-set_field, all_answer, repair_messages-answer}

module _ {F : Type 0} where
  repaired_same :
      (last : Option (Json F)) (msg : Json F) (next : List (Json F))
      → (repaired last msg next).1 ≡ false
      → (repaired last msg next).0 ≡ some msg
  unfolding repaired
  repaired_same last msg next h = content (blocks_of msg) h
    where
      dropped : (kept : List (Json F)) → Option (Json F) × Bool
      dropped kept = elim kept [
        | [] ↦ (none, true)
        | b ∷ bs ↦ (some (with_content (b ∷ bs) msg), true)
      ]

      shorter :
          (t : Bool) (kept : List (Json F))
          → (if t then (some msg, false) else dropped kept).1 ≡ false
          → (if t then (some msg, false) else dropped kept).0 ≡ some msg
      shorter true kept h = refl
      shorter false [] h = absurd (cc h)
      shorter false (b ∷ bs) h = absurd (cc h)

      fate : List (Json F) → Option (List (Json F)) → Option (Json F) × Bool
      fate blocks o = elim o [
        | none ↦ (some msg, false)
        | some kept ↦ if eqb (length kept) (length blocks) then (some msg, false) else dropped kept
      ]

      inside :
          (blocks : List (Json F)) (o : Option (List (Json F)))
          → (fate blocks o).1 ≡ false
          → (fate blocks o).0 ≡ some msg
      inside blocks none h = refl
      inside blocks (some kept) h = shorter (eqb (length kept) (length blocks)) kept h

      content :
          (o : Option (List (Json F)))
          → (elim o as (λ x. Option (Json F) × Bool) [
            | none ↦ (some msg, false)
            | some blocks ↦ fate blocks (kept_blocks last msg next blocks)
          ]).1
            ≡ false
          → (elim o as (λ x. Option (Json F) × Bool) [
            | none ↦ (some msg, false)
            | some blocks ↦ fate blocks (kept_blocks last msg next blocks)
          ]).0
            ≡ some msg
      content none h = refl
      content (some blocks) h = inside blocks (kept_blocks last msg next blocks) h

  -- Where nothing is reported as changed, nothing is.
  repair_messages_same :
      (messages : List (Json F)) (last : Option (Json F))
      → (repair_messages last messages).1 ≡ false
      → (repair_messages last messages).0 ≡ messages
  unfolding repair_messages
  repair_messages_same [] last h = refl
  repair_messages_same (msg ∷ next) last h =
      let own = repaired_same last msg next (ground arith) in
      let rest =
        repair_messages_same next (or_last (repaired last msg next).0 last) (ground arith) in
      rw (rest, own) refl

  -- After the repair of a body every tool result in a message of the user answers a tool use in the
  -- assistant's message right before it, whether the body was changed or not.
  pub sanitize_tool_pairs-answer :
      (m : Fields F) (out : List (Json F))
      → Option.bind (get_field "messages" (sanitize_tool_pairs m).0) as_array ≡ some out
      → all_answer none out ≡ true
  unfolding sanitize_tool_pairs Option.bind as_array
  sanitize_tool_pairs-answer m out h = go (Option.bind (get_field "messages" m) as_array) refl h
    where
      after : List (Json F) × Bool → Fields F × Bool
      after result =
          if result.1 then (set_field "messages" (arr (of_list result.0)) m, true) else (m, false)

      good :
          (messages : List (Json F))
          → Option.bind (get_field "messages" m) as_array ≡ some messages
          → (result : List (Json F) × Bool) → all_answer none result.0 ≡ true
          → (result.1 ≡ false → result.0 ≡ messages)
          → Option.bind (get_field "messages" (after result).0) as_array ≡ some out
          → all_answer none out ≡ true
      good messages e (new, true) ok same h =
          let written = get_field-set_field "messages" "messages" (arr (of_list new)) m in
          let found : some (to_list (of_list new)) ≡ some out = rw (written) at h in
          let is_out : to_list (of_list new) ≡ out = cc found in
          subst (λ v. all_answer none v ≡ true) (sym (to_list-of_list new) ∙ is_out) ok
      good messages e (new, false) ok same h =
          let is_out : messages ≡ out = cc (e, h) in
          subst (λ v. all_answer none v ≡ true) (same refl ∙ is_out) ok

      go :
          (o : Option (List (Json F)))
          → Option.bind (get_field "messages" m) as_array ≡ o
          → Option.bind
              (get_field "messages"
                (elim o as (λ x. Fields F × Bool) [
                  | none ↦ (m, false)
                  | some messages ↦ after (repair_messages none messages)
                ]).0)
              as_array
            ≡ some out
          → all_answer none out ≡ true
      go none e h = absurd (cc (e, h))
      go (some messages) e h =
          good messages e (repair_messages none messages) (repair_messages-answer messages none)
            (repair_messages_same messages none) h
