-- ===== src/Fleet/Ranking.antt =====
-- src/manager.rs: the order in which eligible accounts are tried.
-- The tables that the source keys by priority or by account id are computed from the list that
-- they are built from.
pub mod Priority
use Prim.Native.Nat.{compare, Ordering}
use mathlib.Core.Option
use corrall.Prelude.{
  ℕ, ◌+◌, ◌*◌, ◌%◌, ◌^◌, String, Bool, true, false, not, ◌&&◌, ◌||◌, List, [], ◌∷◌, map, Option,
  none, some, keep, if◌then◌else◌, ◌==◌,
}
use corrall.Prelude.Int.{ℤ, pos, ltb_ℤ, min_ℤ, compare_ℤ, i64_max, add_i64, sub_i64, div_i64}
use corrall.Prelude.Bytes.{Bytes}
use corrall.Prelude.Float.{Float, clamp}
use corrall.Prelude.Maps.{lookup}
use corrall.Prelude.Sort.{then_by, is_lt, sort_by}
use corrall.Model.{weekly_bucket_for}
use corrall.Quota.{bucket, no_reading, or_else}
use corrall.Session.{SessionStats, stats, member}
use corrall.Fleet.{Account, Fleet, SelectRequest}
use corrall.Fleet.Upstream.{Platform}
use corrall.Fleet.Eligibility.{is_available_for, weekly_key_for}

abbrev pub weekly_band_ms : ℕ
weekly_band_ms = 24 * 3600 * 1000

abbrev pub five_hour_band_ms : ℕ
five_hour_band_ms = 15 * 60 * 1000

abbrev pub five_hour_window_ms : ℤ
five_hour_window_ms = pos (5 * 3600 * 1000)

abbrev pub later_than : ℤ → Option ℤ → Option ℤ
later_than now none = none
later_than now (some r) = if ltb_ℤ now r then some r else none

-- Whole bands of `width` after `from`; an unknown reset stays last.
unfoldable pub band_steps : ℤ → ℤ → ℕ → ℤ
band_steps t from width = elim (compare_ℤ t i64_max) [
  | Ordering.eq ↦ i64_max
  | _ ↦ div_i64 (sub_i64 t from) width
]

-- Priority, weekly band and 5h band.
abbrev pub Band : Type 0
Band = ℤ × ℤ × ℤ

abbrev pub compare_band : Band → Band → Ordering
compare_band (p, w, f) (p', w', f') =
    then_by (compare_ℤ p p') (then_by (compare_ℤ w w') (compare_ℤ f f'))

abbrev pub least : List ℤ → ℤ
least [] = i64_max
least (t ∷ ts) = min_ℤ t (least ts)

abbrev pub is_same : ℤ → ℤ → Bool
is_same a b = elim (compare_ℤ a b) [ Ordering.eq ↦ true | _ ↦ false ]

module _ {F : Type 0} where
  -- `Account::weekly_reset_for`
  unfoldable pub weekly_reset_for : Account F → Option Bytes → Option ℤ
  weekly_reset_for a model =
      or_else (Option.bind (bucket a.quota (weekly_bucket_for model)) (λ b. b.reset_at))
        a.quota.unified7d.reset_at

  unfoldable pub weekly_reset_key : Account F → Option Bytes → ℤ → ℤ
  weekly_reset_key a model now = Option.get_or (later_than now (weekly_reset_for a model)) i64_max

  -- An account with no running window counts as starting one now.
  unfoldable pub five_hour_deadline : Account F → ℤ → ℤ
  five_hour_deadline a now =
      Option.get_or (later_than now a.quota.unified5h.reset_at) (add_i64 now five_hour_window_ms)

  -- The soonest weekly reset in a priority tier.
  unfoldable pub weekly_min : List (Account F) → Option Bytes → ℤ → ℤ → ℤ
  weekly_min pool model now priority = least (
      map (λ (a : Account F). weekly_reset_key a model now)
        (keep (λ (a : Account F). is_same a.priority priority) pool))

  unfoldable pub weekly_band : List (Account F) → Option Bytes → ℤ → Account F → ℤ
  weekly_band pool model now a =
      band_steps (weekly_reset_key a model now) (weekly_min pool model now a.priority)
        weekly_band_ms

  -- The soonest 5h reset in a weekly band.
  unfoldable pub five_min : List (Account F) → Option Bytes → ℤ → ℤ → ℤ → ℤ
  five_min pool model now priority band = least (
      map (λ (a : Account F). five_hour_deadline a now)
        (keep
          (λ (a : Account F).
            is_same a.priority priority && is_same (weekly_band pool model now a) band)
          pool))

  -- The soonest-reset rank of an account in `pool`.
  unfoldable pub soonest_reset_band : List (Account F) → Option Bytes → ℤ → Account F → Band
  soonest_reset_band pool model now a =
      let wb = weekly_band pool model now a in
      (
        a.priority,
        wb,
        band_steps (five_hour_deadline a now) (five_min pool model now a.priority wb)
            five_hour_band_ms,
      )

  -- Sessions and requests on an account.
  unfoldable pub active_load : SessionStats → Account F → ℕ
  active_load st a = Option.get_or (lookup a.id st.per_account_active) 0

  unfoldable pub flight_load : SessionStats → Account F → ℕ
  flight_load st a = (Option.get_or (lookup a.id st.per_account_in_flight) 0 + a.in_flight) % 2 ^ 32

  abbrev pub compare_load : Bool → SessionStats → Account F → Account F → Ordering
  compare_load distribute st a b =
      if distribute
      then then_by (compare (active_load st a) (active_load st b))
          (compare (flight_load st a) (flight_load st b))
      else Ordering.eq

module _ {F : Type 0} ⦃fl : Float F⦄ where
  abbrev pub week_seconds : F
  week_seconds = fl.mul (fl.mul (fl.decimal 7 0) (fl.decimal 24 0)) (fl.decimal 3600 0)

  -- Spendable headroom of the governing weekly bucket per second, and whether the reset is known.
  unfoldable pub pressure : Fleet F → Account F → Option Bytes → ℤ → Option F × Bool
  unfolding clamp
  pressure f a model now =
      let b = Option.get_or (bucket a.quota (weekly_key_for f model)) no_reading in
      elim b.utilization [
        | none ↦ (none, false)
        | some u ↦
            let spendable = fl.sub (fl.decimal 1 0) (clamp u (fl.decimal 0 0) (fl.decimal 1 0)) in
            elim b.reset_at [
              | none ↦ (some (fl.div spendable week_seconds), false)
              | some r ↦
                  if ltb_ℤ now r
                  then (
                    some
                        (fl.div spendable (fl.div (fl.of_int (sub_i64 r now)) (fl.decimal 1000 0))),
                    true,
                  )
                  else (some (fl.decimal 0 0), true)
            ]
      ]

  -- `partial_cmp`, with unordered values taken as equal.
  abbrev pub compare_float : F → F → Ordering
  compare_float x y =
      if fl.lt x y then Ordering.lt else if fl.lt y x then Ordering.gt else Ordering.eq

  abbrev pub max_from : F → List F → F
  max_from m [] = m
  max_from m (y ∷ ys) = max_from (fl.fmax m y) ys

  -- `reduce(f64::max)`
  abbrev pub greatest : List F → Option F
  greatest [] = none
  greatest (x ∷ xs) = some (max_from x xs)

  -- The pressures of a tier that rest on a known reset.
  unfoldable pub known_pressures : Fleet F → Option Bytes → ℤ → ℤ → List (Account F) → List F
  known_pressures f model now top [] = []
  known_pressures f model now top (a ∷ v) =
      let rest = known_pressures f model now top v in
      let (p, measured) = pressure f a model now in
      if is_same a.priority top && measured
      then elim p [ none ↦ rest | some x ↦ x ∷ rest ]
      else rest

  abbrev pub compare_pressure : Fleet F → Option Bytes → ℤ → Account F → Account F → Ordering
  compare_pressure f model now a b = then_by (compare_ℤ a.priority b.priority) (
      compare_float (Option.get_or (pressure f b model now).0 fl.infinity)
        (Option.get_or (pressure f a model now).0 fl.infinity))

  abbrev pub tolerance_of : F → F
  tolerance_of t = if fl.is_finite t && fl.lt (fl.decimal 0 0) t then t else fl.decimal 1 0

  abbrev pub passes_floor : F → Option F → Bool
  passes_floor floor none = true
  passes_floor floor (some p) = fl.ge p floor

  -- The part of `band` after the highest known pressure is found.
  unfoldable pub band_above :
      Fleet F → Option Bytes → ℤ → ℤ → F → List (Account F) → List (Account F)
  band_above f model now top max v =
      let floor = fl.fmin (fl.div max (tolerance_of f.expiry.tolerance)) max in
      sort_by (compare_pressure f model now) (
        keep
          (λ (a : Account F).
            not (is_same a.priority top) || passes_floor floor (pressure f a model now).0)
          v)

  -- Restrict the top tier to the accounts near its highest pressure. A list of one or none is
  -- left alone.
  unfoldable pub band : Fleet F → Option Bytes → ℤ → List (Account F) → List (Account F)
  unfolding band_above known_pressures
  band f model now [] = []
  band f model now (a ∷ []) = a ∷ []
  band f model now (a ∷ b ∷ v) =
      let top = least (map (λ (c : Account F). c.priority) (a ∷ b ∷ v)) in
      if f.expiry.enabled
      then elim (greatest (known_pressures f model now top (a ∷ b ∷ v))) [
        | none ↦ a ∷ b ∷ v
        | some max ↦ band_above f model now top max (a ∷ b ∷ v)
      ]
      else a ∷ b ∷ v

module _ {F : Type 0} ⦃fl : Float F⦄ ⦃pf : Platform⦄ where
  -- `Fleet::available`
  unfoldable pub available : Fleet F → SelectRequest → ℤ → List (Account F)
  available f req now =
      keep (λ (a : Account F). not (member a.id req.exclude) && is_available_for f a req now)
        f.accounts

  abbrev pub reset_or_last : Account F → Option Bytes → ℤ
  reset_or_last a model = Option.get_or (weekly_reset_for a model) i64_max

  abbrev pub compare_default :
      Fleet F → SessionStats → Option Bytes → Account F → Account F → Ordering
  compare_default f st model a b = then_by (compare_ℤ a.priority b.priority) (
      then_by (compare_load f.distribute_sessions st a b)
        (compare_ℤ (reset_or_last a model) (reset_or_last b model)))

  unfoldable pub ranked_by_default : Fleet F → SelectRequest → ℤ → List (Account F)
  ranked_by_default f req now =
      let v = available f req now in
      if f.expiry.enabled
      then band f req.model now v
      else sort_by (compare_default f (stats now f.sessions) req.model) v

  abbrev pub compare_soonest :
      Fleet F
      → SessionStats
      → Option Bytes
      → ℤ
      → List (Account F)
      → Account F
      → Account F
      → Ordering
  compare_soonest f st model now pool a b =
      then_by
        (compare_band (soonest_reset_band pool model now a) (soonest_reset_band pool model now b))
        (then_by (compare_load f.distribute_sessions st a b) (
          then_by (compare_ℤ (weekly_reset_key a model now) (weekly_reset_key b model now))
            (compare_ℤ (five_hour_deadline a now) (five_hour_deadline b now))))

  unfoldable pub ranked_available : Fleet F → SelectRequest → ℤ → List (Account F)
  unfolding ranked_by_default
  ranked_available f req now =
      let v = ranked_by_default f req now in
      if f.soonest_reset
      then sort_by (compare_soonest f (stats now f.sessions) req.model now v) v
      else v

  abbrev pub is_listed : String → List (Account F) → Bool
  is_listed id [] = false
  is_listed id (a ∷ v) = a.id == id || is_listed id v

  -- Does `best` sit in an earlier weekly or 5h band than `cur`?
  unfoldable pub soonest_reset_preempts : Fleet F → Account F → Account F → SelectRequest → ℤ → Bool
  soonest_reset_preempts f best cur req now =
      let pool = available f req now in
      if not f.soonest_reset || best.id == cur.id
      then false
      else is_listed best.id pool
        && (is_listed cur.id pool
            && is_lt (
                compare_band (soonest_reset_band pool req.model now best)
                  (soonest_reset_band pool req.model now cur)))
