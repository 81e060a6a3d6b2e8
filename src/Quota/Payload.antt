-- ===== src/Quota/Payload.antt =====
-- src/quota.rs: the JSON of the usage endpoint, and what is kept of it. The parser of ISO times is
-- an argument.
use mathlib.Core.Option
use mathlib.Core.List.{foldl}
use corrall.Prelude.{
  ◌^◌, String, Bool, true, false, List, [], ◌∷◌, Option, none, some, find, if◌then◌else◌, ◌==◌,
}
use corrall.Prelude.Int.{ℤ, pos}
use corrall.Prelude.Bytes.{codes, trim, contains}
use corrall.Prelude.Texts.{lower_text}
use corrall.Prelude.Float.{Float}
use corrall.Prelude.Maps.{Map, insert_sorted}
use corrall.Prelude.Json.{
  Json, Fields, null, bool, int, float, str, obj, field, end, get, text_at, as_str, as_array,
  as_object, as_bool, as_i64, as_f64, is_array,
}
use corrall.Quota.{Bucket, UsagePayload, or_else}

module _ {F : Type 0} where
  -- The first of some keys that a value has.
  abbrev pub first_of : List String → Json F → Option (Json F)
  first_of [] v = none
  first_of (k ∷ ks) v = or_else (get k v) (first_of ks v)

  abbrev pub when_object : Option (Json F) → Option (Json F)
  when_object o = Option.bind o (λ v. Option.map (λ (fs : Fields F). obj fs) (as_object v))

  abbrev pub get_in : Option (Json F) → String → Option (Json F)
  get_in o k = Option.bind o (get k)

module _ {F : Type 0} ⦃fl : Float F⦄ where
  -- A number, or a text that is one.
  unfoldable pub number : Json F → Option F
  number v = or_else (as_f64 v) (Option.bind (as_str v) (λ s. fl.parse (codes s)))

  -- Seconds, or milliseconds if the number is that large.
  abbrev pub to_ms : F → ℤ
  to_ms n =
      if fl.lt n (fl.decimal (10 ^ 12) 0)
      then fl.to_int (fl.mul n (fl.decimal 1000 0))
      else fl.to_int n

  unfoldable pub reset_time : (String → Option ℤ) → Json F → Option ℤ
  reset_time parse_iso_ms r = elim (as_f64 r) [
    | some n ↦ some (to_ms n)
    | none ↦
        Option.bind (as_str r) (λ s. elim (fl.parse (trim (codes s))) [
          | some n ↦ some (to_ms n)
          | none ↦ parse_iso_ms s
        ])
  ]

  abbrev pub read_object : (String → Option ℤ) → Json F → Bucket F
  read_object parse_iso_ms v = record {
    utilization =
        Option.map (λ p. fl.div p (fl.decimal 100 0))
          (Option.bind
            (first_of ("used_percentage" ∷ "utilization" ∷ "usedPercentage" ∷ "percent" ∷ []) v)
            number);
    reset_at =
        Option.bind (first_of ("resets_at" ∷ "resetsAt" ∷ "reset_at" ∷ "resetAt" ∷ []) v)
          (reset_time parse_iso_ms);
    seen_at = none;
  }

  unfoldable pub normalize_bucket : (String → Option ℤ) → Option (Json F) → Option (Bucket F)
  unfolding number reset_time
  normalize_bucket parse_iso_ms o = Option.map (read_object parse_iso_ms) (when_object o)

  -- A weekly limit of a model with a name.
  abbrev pub limit_name : Json F → Option String
  limit_name l = elim (text_at "group" l) [
    | none ↦ none
    | some g ↦
        if g == "weekly"
        then Option.bind (get_in (get_in (get "scope" l) "model") "display_name") as_str
        else none
  ]

  -- One round of the loop over `limits`.
  unfoldable pub add_limit : (String → Option ℤ) → Map (Bucket F) → Json F → Map (Bucket F)
  unfolding normalize_bucket
  add_limit parse_iso_ms scoped l = elim (limit_name l) [
    | none ↦ scoped
    | some name ↦ elim (normalize_bucket parse_iso_ms (some l)) [
      | none ↦ scoped
      | some b ↦ insert_sorted (lower_text name) b scoped
    ]
  ]

  abbrev pub find_scoped : String → Map (Bucket F) → Option (Bucket F)
  find_scoped needle scoped =
      Option.map (λ (e : String × Bucket F). e.1)
        (find (λ (e : String × Bucket F). contains (codes e.0) (codes needle)) scoped)

  -- What `json!` makes of an amount: a number that is not finite is no JSON.
  abbrev pub amount : Option F → Json F
  amount none = null
  amount (some x) = if fl.is_finite x then float x else null

  abbrev pub text_or_null : Option String → Json F
  text_or_null none = null
  text_or_null (some s) = str s

  abbrev pub money : Option (Json F) → Option F
  money m = Option.bind (get_in (when_object m) "amount_minor") number

  abbrev pub flag : Option (Json F) → String → Json F
  flag extra k = bool (Option.get_or (Option.bind (get_in extra k) as_bool) false)

  abbrev pub is_missing : Option (Json F) → Bool
  is_missing none = true
  is_missing (some v) = false

  abbrev pub spend_fields : Option (Json F) → Option (Json F) → Json F
  spend_fields extra spend =
      let used = get_in spend "used" in
      let limit = get_in spend "limit" in
      let currency =
        Option.bind
          (or_else (get_in used "currency")
            (or_else (get_in limit "currency") (get_in extra "currency")))
          as_str in
      let exponent =
        Option.bind
          (or_else (get_in used "exponent")
            (or_else (get_in limit "exponent") (get_in extra "decimal_places")))
          as_i64 in
      obj (
        field "enabled" (flag extra "is_enabled") (
          field "usedMinor" (amount (money used)) (
            field "limitMinor" (amount (money limit)) (
              field "currency" (text_or_null currency) (
                field "exponent" (int (Option.get_or exponent (pos 2))) (
                  field "userDisabled" (flag extra "user_disabled") (
                    field "disabledReason"
                      (text_or_null (Option.bind (get_in extra "disabled_reason") as_str))
                      end)))))))

  unfoldable pub normalize_spend : Json F → Option (Json F)
  unfolding number
  normalize_spend payload =
      let extra = when_object (get "extra_usage" payload) in
      let spend = when_object (get "spend" payload) in
      elim extra [
        | some e ↦ some (spend_fields (some e) spend)
        | none ↦ if is_missing spend then none else some (spend_fields none spend)
      ]

  unfoldable pub normalize_usage : (String → Option ℤ) → Json F → UsagePayload F
  unfolding normalize_bucket add_limit normalize_spend
  normalize_usage parse_iso_ms payload =
      let limits = get "limits" payload in
      let scoped =
        foldl (add_limit parse_iso_ms) [] (Option.get_or (Option.bind limits as_array) []) in
      record {
        five_hour = normalize_bucket parse_iso_ms (get "five_hour" payload);
        seven_day = normalize_bucket parse_iso_ms (get "seven_day" payload);
        seven_day_sonnet =
            or_else (normalize_bucket parse_iso_ms (get "seven_day_sonnet" payload))
              (find_scoped "sonnet" scoped);
        seven_day_fable = find_scoped "fable" scoped;
        scoped_weekly = scoped;
        scoped_listed = elim limits [ none ↦ false | some v ↦ is_array v ];
        spend = normalize_spend payload;
      }
