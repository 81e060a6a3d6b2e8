-- ===== src/Body/Answers.antt =====
-- src/proxy/body.rs: tool results after the repair of the messages.
use mathlib.Core.Option
use corrall.Prelude.{
  String, ◌≡◌, refl, subst, ap, ◌⊎◌, ◌∙◌, Bool, true, false, ◌&&◌, List, [], ◌∷◌, Option, none,
  some, all, keep, eqb, eqb_iff, length, length-keep-le, arith, if◌then◌else◌, ◌==◌, eq_iff,
  Bool-cases, inl, inr, and_true,
}
use corrall.Prelude.Json.{
  Json, Fields, null, bool, int, float, str, arr, obj, end, field, of_list, to_list-of_list, get,
  get_field, set_field, as_str, as_array,
}
use corrall.Body.{
  role, blocks_of, ids_in, is_matched, kept_blocks, with_content, repaired, or_last, push,
  repair_messages,
}

assistant_role : (r : String) → (r == "assistant") ≡ true → (r == "user") ≡ false
assistant_role r h = let named : r ≡ "assistant" = (eq_iff r "assistant").0 h in rw (named) refl

module _ {F : Type 0} where
  pub get_field-set_field :
      (k j : String) (v : Json F) (fs : Fields F)
      → get_field k (set_field j v fs) ≡ (if j == k then some v else get_field k fs)
  unfolding get_field set_field
  get_field-set_field k j v end = refl
  get_field-set_field k j v (field i w fs) =
      ground (arith, eq_iff j k, eq_iff i j, eq_iff i k, get_field-set_field k j v fs)

  -- The results of a user's message are among the uses of the assistant's message before it.
  abbrev pub answers : Option (Json F) → Json F → Bool
  answers last msg =
      if role msg == "user"
      then elim (blocks_of msg) [
        | none ↦ true
        | some blocks ↦
            all (is_matched "tool_result" "tool_use_id" (ids_in "assistant" "tool_use" "id" last))
              blocks
      ]
      else true

  -- Every message of a list that follows `last` does so.
  abbrev pub all_answer : Option (Json F) → List (Json F) → Bool
  all_answer last [] = true
  all_answer last (m ∷ ms) = answers last m && all_answer (some m) ms

  keep-passes : (p : Json F → Bool) (v : List (Json F)) → all p (keep p v) ≡ true
  keep-passes p [] = refl
  keep-passes p (b ∷ v) = ground (arith, keep-passes p v)

  -- If nothing was dropped, all of it passes.
  keep_whole :
      (p : Json F → Bool) (v : List (Json F)) → length (keep p v) ≡ length v → all p v ≡ true
  keep_whole p [] h = refl
  keep_whole p (b ∷ v) h = ground (arith, keep_whole p v, length-keep-le p v)

  role-with_content :
      (kept blocks : List (Json F)) (msg : Json F)
      → blocks_of msg ≡ some blocks
      → (role (with_content kept msg) ≡ role msg) × (blocks_of (with_content kept msg) ≡ some kept)
  unfolding get Option.bind as_array as_str
  role-with_content kept blocks (obj fs) h =
      let same = get_field-set_field "role" "content" (arr (of_list kept)) fs in
      let new = get_field-set_field "content" "content" (arr (of_list kept)) fs in
      (rw (same) refl, rw (new) (ap some (to_list-of_list kept)))
  role-with_content kept blocks null h = absurd (cc h)
  role-with_content kept blocks (bool b) h = absurd (cc h)
  role-with_content kept blocks (int z) h = absurd (cc h)
  role-with_content kept blocks (float x) h = absurd (cc h)
  role-with_content kept blocks (str s) h = absurd (cc h)
  role-with_content kept blocks (arr vs) h = absurd (cc h)

  -- A message whose role is not the user's has nothing to answer.
  other_role :
      (last : Option (Json F)) (msg : Json F)
      → (role msg == "user") ≡ false
      → answers last msg ≡ true
  other_role last msg e = rw (e) refl

  no_content :
      (last : Option (Json F)) (msg : Json F) → blocks_of msg ≡ none → answers last msg ≡ true
  no_content last msg e = go (role msg == "user") (blocks_of msg) e
    where
      matched : Json F → Bool
      matched = is_matched "tool_result" "tool_use_id" (ids_in "assistant" "tool_use" "id" last)

      go :
          (t : Bool) (o : Option (List (Json F)))
          → o ≡ none
          → (if t then elim o [ none ↦ true | some bs ↦ all matched bs ] else true) ≡ true
      go false o e = refl
      go true none e = refl
      go true (some bs) e = absurd (cc e)

  user_role :
      (last : Option (Json F)) (msg : Json F) (blocks : List (Json F))
      → blocks_of msg ≡ some blocks
      → all
          (is_matched "tool_result" "tool_use_id" (ids_in "assistant" "tool_use" "id" last))
          blocks
        ≡ true
      → answers last msg ≡ true
  user_role last msg blocks e h = go (role msg == "user") (blocks_of msg) e
    where
      matched : Json F → Bool
      matched = is_matched "tool_result" "tool_use_id" (ids_in "assistant" "tool_use" "id" last)

      go :
          (t : Bool) (o : Option (List (Json F)))
          → o ≡ some blocks
          → (if t then elim o [ none ↦ true | some bs ↦ all matched bs ] else true) ≡ true
      go false o e = refl
      go true none e = absurd (cc e)
      go true (some bs) e = let same : bs ≡ blocks = cc e in rw (same) h

  -- The blocks that stay of a user's message are those that match; of another role nothing is said.
  kept-answers :
      (last : Option (Json F)) (msg : Json F) (next blocks : List (Json F))
      → ((role msg == "user") ≡ false)
        ⊎ (kept_blocks last msg next blocks
            ≡ some (
                keep
                  (is_matched "tool_result" "tool_use_id" (ids_in "assistant" "tool_use" "id" last))
                  blocks))
  unfolding kept_blocks
  kept-answers last msg next blocks = elim (Bool-cases (role msg == "user")) [
    | inr e ↦ inl e
    | inl e ↦ elim (Bool-cases (role msg == "assistant")) [
      | inl e' ↦ inl (assistant_role (role msg) e')
      | inr e' ↦ inr (rw (kept_blocks, e', e) refl)
    ]
  ]

  abbrev pub Good : Option (Json F) → Option (Json F) → Type 0
  Good last none = Unit
  Good last (some m) = answers last m ≡ true

  repaired-Good :
      (last : Option (Json F)) (msg : Json F) (next : List (Json F))
      → Good last (repaired last msg next).0
  unfolding repaired
  repaired-Good last msg next = content (blocks_of msg) refl
    where
      matched : Json F → Bool
      matched = is_matched "tool_result" "tool_use_id" (ids_in "assistant" "tool_use" "id" last)

      fate : List (Json F) → Option (List (Json F)) → Option (Json F) × Bool
      fate blocks o = elim o [
        | none ↦ (some msg, false)
        | some kept ↦
            if eqb (length kept) (length blocks)
            then (some msg, false)
            else elim kept [ [] ↦ (none, true) | b ∷ bs ↦ (some (with_content (b ∷ bs) msg), true) ]
      ]

      -- Another role: nothing is asked of what is kept.
      silent :
          (blocks : List (Json F)) (o : Option (List (Json F)))
          → blocks_of msg ≡ some blocks
          → (role msg == "user") ≡ false
          → Good last (fate blocks o).0
      silent blocks none e r = other_role last msg r
      silent blocks (some kept) e r = shorter (eqb (length kept) (length blocks)) kept
        where
          shorter :
              (t : Bool) (kept : List (Json F))
              → Good last
                  (if t then (some msg, false) else elim kept as (λ x. Option (Json F) × Bool) [
                    | [] ↦ (none, true)
                    | b ∷ bs ↦ (some (with_content (b ∷ bs) msg), true)
                  ]).0
          shorter true kept = other_role last msg r
          shorter false [] = tt
          shorter false (b ∷ bs) =
              let same = (role-with_content (b ∷ bs) blocks msg e).0 in
              other_role last (with_content (b ∷ bs) msg) (rw (same) r)

      -- The user's: what is kept matches.
      spoken :
          (blocks kept : List (Json F))
          → blocks_of msg ≡ some blocks
          → keep matched blocks ≡ kept
          → Good last (fate blocks (some kept)).0
      spoken blocks kept e k = shorter (eqb (length kept) (length blocks)) refl kept k
        where
          shorter :
              (t : Bool)
              → eqb (length kept) (length blocks) ≡ t
              → (some_kept : List (Json F)) → keep matched blocks ≡ some_kept
              → Good last
                  (if t
                    then (some msg, false)
                    else elim some_kept as (λ x. Option (Json F) × Bool) [
                      | [] ↦ (none, true)
                      | b ∷ bs ↦ (some (with_content (b ∷ bs) msg), true)
                    ]).0
          shorter true e' some_kept k' =
              let same_length : length kept ≡ length blocks =
                (eqb_iff (length kept) (length blocks)).0 e' in
              user_role last msg blocks e (keep_whole matched blocks (ap length k ∙ same_length))
          shorter false e' [] k' = tt
          shorter false e' (b ∷ bs) k' =
              let new = (role-with_content (b ∷ bs) blocks msg e).1 in
              user_role last (with_content (b ∷ bs) msg) (b ∷ bs) new
                (subst (λ v. all matched v ≡ true) k' (keep-passes matched blocks))

      content :
          (o : Option (List (Json F)))
          → blocks_of msg ≡ o
          → Good last
              (elim o as (λ x. Option (Json F) × Bool) [
                | none ↦ (some msg, false)
                | some blocks ↦ fate blocks (kept_blocks last msg next blocks)
              ]).0
      content none e = no_content last msg e
      content (some blocks) e = elim (kept-answers last msg next blocks) [
        | inl r ↦ silent blocks (kept_blocks last msg next blocks) e r
        | inr k ↦ rw (k) (spoken blocks (keep matched blocks) e refl)
      ]

  -- After the repair every tool result in a message of the user answers a tool use in the
  -- assistant's message right before it.
  pub repair_messages-answer :
      (messages : List (Json F)) (last : Option (Json F))
      → all_answer last (repair_messages last messages).0 ≡ true
  unfolding repair_messages
  repair_messages-answer [] last = refl
  repair_messages-answer (msg ∷ next) last =
      pushed (repaired last msg next).0 (repaired-Good last msg next)
        (λ l. repair_messages-answer next l)
    where
      pushed :
          (o : Option (Json F))
          → Good last o
          → ((l : Option (Json F)) → all_answer l (repair_messages l next).0 ≡ true)
          → all_answer last (push o (repair_messages (or_last o last) next).0) ≡ true
      pushed none good rest = rest last
      pushed (some m) good rest = and_true (answers last m) _ good (rest (some m))
