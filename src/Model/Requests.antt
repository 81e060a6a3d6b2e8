-- ===== src/Model/Requests.antt =====
-- src/model.rs: the models that a request body names. The parser, serde_json, is the argument
-- `parse`.
use mathlib.Core.Option
use corrall.Prelude.{
  ◌≡◌, refl, ap, ◌↔◌, String, Bool, true, List, [], ◌∷◌, Option, none, some, arith, if◌then◌else◌,
}
use corrall.Prelude.Bytes.{Bytes, codes, lowercase, starts_with}
use corrall.Prelude.Json.{Json, get, as_str, text_at, as_array}

abbrev pub names_advisor : String → Bool
names_advisor type = starts_with (lowercase (codes type)) (codes "advisor")

module _ {F : Type 0} where
  -- The closure of `find_map`.
  abbrev pub tool_advisor : Json F → Option String
  tool_advisor t =
      Option.bind (text_at "type" t)
        (λ type. if names_advisor type then text_at "model" t else none)

  -- `tools.iter().find_map(…)`
  abbrev pub find_advisor : List (Json F) → Option String
  find_advisor [] = none
  find_advisor (t ∷ tools) = elim (tool_advisor t) [ none ↦ find_advisor tools | some m ↦ some m ]

  unfoldable pub request_model : (Bytes → Option (Json F)) → Bytes → Option String
  request_model parse body = Option.bind (parse body) (λ v. text_at "model" v)

  unfoldable pub advisor_model : (Bytes → Option (Json F)) → Bytes → Option String
  advisor_model parse body =
      Option.bind (parse body)
        (λ v. Option.bind (get "tools" v) (λ found. Option.bind (as_array found) find_advisor))

  unfoldable pub models_in_body : (Bytes → Option (Json F)) → Bytes → Option String × Option String
  models_in_body parse body = elim (parse body) [
    | none ↦ (none, none)
    | some v ↦ (text_at "model" v, Option.bind (Option.bind (get "tools" v) as_array) find_advisor)
  ]

  -- A tool whose type begins with "advisor" in either case and which names the model m.
  pub record Advises (m : String) (t : Json F) : Type 0 where
    pub type : String
    pub has_type : text_at "type" t ≡ some type
    pub is_advisor : names_advisor type ≡ true
    pub has_model : text_at "model" t ≡ some m

  -- A tool of the list advises with m, and none before it advises.
  pub data FirstAdvisor (m : String) : List (Json F) → Type 0 where
    here : {t : Json F} {tools : List (Json F)} → Advises m t → FirstAdvisor m (t ∷ tools)
    later :
        {t : Json F} {tools : List (Json F)}
        → ((m' : String) → ¬ Advises m' t)
        → FirstAdvisor m tools
        → FirstAdvisor m (t ∷ tools)

  tool_advisor-Advises : (m : String) (t : Json F) → tool_advisor t ≡ some m → Advises m t
  unfolding Option.bind
  tool_advisor-Advises m t h = typed (text_at "type" t) refl h
    where
      typed :
          (o : Option String)
          → text_at "type" t ≡ o
          → Option.bind o (λ type. if names_advisor type then text_at "model" t else none) ≡ some m
          → Advises m t
      typed none e h = absurd (cc h)
      typed (some type) e h =
          let advisor : names_advisor type ≡ true = ground arith in
          let named : text_at "model" t ≡ some m = ground arith in
          record { type = type; has_type = e; is_advisor = advisor; has_model = named }

  Advises-tool_advisor : (m : String) (t : Json F) → Advises m t → tool_advisor t ≡ some m
  unfolding Option.bind
  Advises-tool_advisor m t a = rw (tool_advisor, Option.bind, a.has_type, a.is_advisor) a.has_model

  find_advisor-FirstAdvisor :
      (m : String) (tools : List (Json F)) → find_advisor tools ≡ some m → FirstAdvisor m tools
  find_advisor-FirstAdvisor m [] h = absurd (cc h)
  find_advisor-FirstAdvisor m (t ∷ tools) h =
      go (tool_advisor t) refl h (λ h'. find_advisor-FirstAdvisor m tools h')
    where
      go :
          (o : Option String)
          → tool_advisor t ≡ o
          → elim o as (λ _. Option String) [ none ↦ find_advisor tools | some n ↦ some n ] ≡ some m
          → (find_advisor tools ≡ some m → FirstAdvisor m tools)
          → FirstAdvisor m (t ∷ tools)
      go none e h rest = later (λ m' a. absurd (cc (e, Advises-tool_advisor m' t a))) (rest h)
      go (some n) e h rest = here (tool_advisor-Advises m t (cc (e, h)))

  FirstAdvisor-find_advisor :
      (m : String) (tools : List (Json F)) → FirstAdvisor m tools → find_advisor tools ≡ some m
  FirstAdvisor-find_advisor m [] first = elim first [ ]
  FirstAdvisor-find_advisor m (t ∷ tools) (here a) =
      rw (find_advisor, Advises-tool_advisor m t a) refl
  FirstAdvisor-find_advisor m (t ∷ tools) (later silent first) =
      go (tool_advisor t) refl (FirstAdvisor-find_advisor m tools first)
    where
      go :
          (o : Option String)
          → tool_advisor t ≡ o
          → find_advisor tools ≡ some m
          → elim o as (λ _. Option String) [ none ↦ find_advisor tools | some n ↦ some n ] ≡ some m
      go none e rest = rest
      go (some n) e rest = absurd (silent n (tool_advisor-Advises n t e))

  -- Where the body is JSON with a list of tools, advisor_model finds m exactly where some tool
  -- advises with m, and no tool before it advises with any model.
  advisor_model_iff :
      (parse : Bytes → Option (Json F)) (body : Bytes) (v found : Json F) (tools : List (Json F))
      (m : String)
      → parse body ≡ some v
      → get "tools" v ≡ some found
      → as_array found ≡ some tools
      → (advisor_model parse body ≡ some m) ↔ FirstAdvisor m tools
  unfolding advisor_model Option.bind
  advisor_model_iff parse body v found tools m parsed has_tools listed =
      let same : advisor_model parse body ≡ find_advisor tools =
        rw (advisor_model, Option.bind, parsed, has_tools, listed) refl in
      (
        λ h. find_advisor-FirstAdvisor m tools (cc (same, h)),
        λ first. cc (same, FirstAdvisor-find_advisor m tools first),
      )

  -- The two scans of a request body agree: models_in_body, which parses it once, finds the model
  -- that request_model finds and the advisor that advisor_model finds.
  models_in_body_lem :
      (parse : Bytes → Option (Json F)) (body : Bytes)
      → models_in_body parse body ≡ (request_model parse body, advisor_model parse body)
  unfolding models_in_body request_model advisor_model Option.bind
  models_in_body_lem parse body = go (parse body)
    where
      tools_of :
          (f : Option (Json F))
          → Option.bind (Option.bind f as_array) find_advisor
            ≡ Option.bind f (λ found. Option.bind (as_array found) find_advisor)
      tools_of none = refl
      tools_of (some v) = refl

      go :
          (o : Option (Json F))
          → elim o as (λ _. Option String × Option String) [
            | none ↦ (none, none)
            | some v ↦
                (text_at "model" v, Option.bind (Option.bind (get "tools" v) as_array) find_advisor)
          ]
            ≡ (
              Option.bind o (λ v. Option.bind (get "model" v) as_str),
              Option.bind o (λ v.
                  Option.bind (get "tools" v) (λ found. Option.bind (as_array found) find_advisor)),
            )
      go none = refl
      go (some v) = ap (λ x. (text_at "model" v, x)) (tools_of (get "tools" v))
