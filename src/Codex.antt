-- ===== src/Codex.antt =====
-- src/codex.rs: the quota readings in the `x-codex-*` headers of a response.
pub mod Places
use mathlib.Core.Option
use mathlib.Core.List.{foldl}
use corrall.Prelude.{
  ℕ, String, Bool, true, false, ◌||◌, List, [], ◌∷◌, Option, none, some, if◌then◌else◌, ◌==◌,
}
use corrall.Prelude.Int.{ℤ, pos, ltb_ℤ, scale_i64}
use corrall.Prelude.Bytes.{codes, parse_i64}
use corrall.Prelude.Texts.{trim_text, strip_prefix, strip_suffix, rsplit_once, lower_text}
use corrall.Prelude.Float.{Float, zero_point}
use corrall.Prelude.Maps.{Map, lookup, insert_sorted}
use Prim.Native.String.{◌++◌}
use corrall.Quota.{Bucket, Quota}

pub record Window (F : Type 0) : Type 0 where
  pub used_percent : Option F
  pub window_minutes : Option F
  pub reset_at : Option ℤ

pub record FamilyWindows (F : Type 0) : Type 0 where
  pub name : Option String
  pub windows : Map (Window F)

-- `entry(key).or_default()` with a change to the value, in a sorted table.
abbrev pub at_entry {ℓ} : {V : Type ℓ} → V → String → (V → V) → Map V → Map V
at_entry default key change table =
    insert_sorted key (change (Option.get_or (lookup key table) default)) table

-- The slug of the family and the position of the window.
unfoldable pub slug_and_position : String → Option (String × String)
slug_and_position head = elim (rsplit_once b'-' head) [
  | none ↦ if head == "primary" || head == "secondary" then some ("", head) else none
  | some (s, p) ↦
      if p == "primary" || p == "secondary"
      then some (s, p)
      else if head == "primary" || head == "secondary"
      then some ("", head)
      else none
]

-- A time of reset in seconds, if it is positive, in milliseconds.
abbrev pub positive_ms : ℤ → Option ℤ
positive_ms r = if ltb_ℤ (pos 0) r then some (scale_i64 r 1000) else none

module _ {F : Type 0} where
  abbrev pub no_window : Window F
  no_window = record { used_percent = none; window_minutes = none; reset_at = none }

  abbrev pub no_windows : FamilyWindows F
  no_windows = record { name = none; windows = [] }

module _ {F : Type 0} ⦃fl : Float F⦄ where
  abbrev pub five_hour_minutes : F
  five_hour_minutes = fl.decimal 300 0

  abbrev pub seven_day_minutes : F
  seven_day_minutes = fl.decimal 10080 0

  -- `f64::abs`, but for the sign of a zero, which no comparison tells apart.
  abbrev pub abs : F → F
  abs x = if fl.lt x zero_point then fl.sub zero_point x else x

  unfoldable pub near : F → F → Bool
  near v target = fl.ge (fl.mul target (fl.decimal 1 1)) (abs (fl.sub v target))

  abbrev pub put_field : String → String → Window F → Window F
  put_field field v w =
      if field == "used-percent"
      then record w { used_percent = fl.parse (codes v) }
      else if field == "window-minutes"
      then record w { window_minutes = fl.parse (codes v) }
      else record w { reset_at = Option.bind (parse_i64 (codes v)) positive_ms }

  -- One round of the loop over the fields.
  unfoldable pub read_field :
      String → String → Map (FamilyWindows F) → String → Map (FamilyWindows F)
  unfolding slug_and_position
  read_field rest v fams field = elim (strip_suffix rest ("-" ++ field)) [
    | none ↦ fams
    | some head ↦ elim (slug_and_position head) [
      | none ↦ fams
      | some (slug, position) ↦
          at_entry no_windows slug
            (λ f. record f { windows = at_entry no_window position (put_field field v) f.windows })
            fams
    ]
  ]

  abbrev pub put_name : String → String → Map (FamilyWindows F) → Map (FamilyWindows F)
  put_name slug v fams = at_entry no_windows slug (λ f. record f { name = some v }) fams

  -- One round of the loop over the headers.
  unfoldable pub read_header : Map (FamilyWindows F) → String × String → Map (FamilyWindows F)
  read_header fams (k, raw) = elim (strip_prefix k "x-codex-") [
    | none ↦ fams
    | some rest ↦
        let v = trim_text raw in
        if v == "" then fams else elim (strip_suffix rest "-limit-name") [
          | some slug ↦ put_name slug v fams
          | none ↦
              foldl (read_field rest v) fams ("used-percent" ∷ "window-minutes" ∷ "reset-at" ∷ [])
        ]
  ]

  unfoldable pub families : Map String → Map (FamilyWindows F)
  families h = foldl read_header [] h

  abbrev pub reading : ℤ → F → Option ℤ → Bucket F
  reading now p reset = record {
    utilization = some (fl.div p (fl.decimal 100 0));
    reset_at = reset;
    seen_at = some now;
  }

  -- One round of the closure `classify`.
  unfoldable pub classify_window :
      ℤ
      → Option (Bucket F) × Option (Bucket F)
      → String × Window F
      → Option (Bucket F) × Option (Bucket F)
  unfolding near
  classify_window now (five, weekly) (position, w) = elim w.window_minutes [
    | none ↦ (five, weekly)
    | some m ↦ elim w.used_percent [
      | none ↦ (five, weekly)
      | some p ↦
          if near m five_hour_minutes
          then (some (reading now p w.reset_at), weekly)
          else if near m seven_day_minutes
          then (five, some (reading now p w.reset_at))
          else (five, weekly)
    ]
  ]

  unfoldable pub classify : ℤ → FamilyWindows F → Option (Bucket F) × Option (Bucket F)
  classify now f = foldl (classify_window now) (none, none) f.windows

  -- The family without a name is that of the whole account.
  unfoldable pub put_account : ℤ → Option (FamilyWindows F) → Quota F → Quota F
  put_account now none q = q
  put_account now (some f) q =
      let both = classify now f in
      record q {
        unified5h = Option.get_or both.0 q.unified5h;
        unified7d = Option.get_or both.1 q.unified7d;
      }

  -- The other families are each of one model.
  unfoldable pub put_scoped : ℤ → Quota F → String × FamilyWindows F → Quota F
  put_scoped now q (slug, f) = if slug == "" then q else elim (classify now f).1 [
    | none ↦ q
    | some b ↦ record q {
      scoped_weekly = insert_sorted (lower_text (Option.get_or f.name slug)) b q.scoped_weekly;
    }
  ]

  -- `apply_codex_headers`: the windows of a response, told apart by their length.
  unfoldable pub apply_codex_headers : Map String → ℤ → Quota F → Quota F
  apply_codex_headers h now q =
      let fams = families h in foldl (put_scoped now) (put_account now (lookup "" fams) q) fams
