-- ===== src/Codex/Places.antt =====
-- src/codex.rs: a window is known by its length, not by its position in the headers.
use corrall.Prelude.{String, ◌≡◌, Bool, false, ◌&&◌, not, [], ◌∷◌, Option, none, some, arith}
use corrall.Prelude.Int.{ℤ}
use corrall.Prelude.Float.{Float}
use corrall.Codex.{Window, near, five_hour_minutes, seven_day_minutes, classify, classify_window}

module _ {F : Type 0} ⦃fl : Float F⦄ where
  -- The window counts as one of five hours, or as one of a week.
  abbrev pub is_five_hours : Window F → Bool
  is_five_hours w = elim w.window_minutes [ none ↦ false | some m ↦ near m five_hour_minutes ]

  abbrev pub is_week : Window F → Bool
  is_week w = elim w.window_minutes [
    | none ↦ false
    | some m ↦ not (near m five_hour_minutes) && near m seven_day_minutes
  ]

  -- Two windows of a family that are not of one length are read alike in either position.
  pub classify-swapped :
      (now : ℤ) (name : Option String) (primary secondary : String) (w v : Window F)
      → (is_five_hours w && is_five_hours v) ≡ false
      → (is_week w && is_week v) ≡ false
      → classify now (record { name = name; windows = (primary, w) ∷ (secondary, v) ∷ [] })
        ≡ classify now (record { name = name; windows = (primary, v) ∷ (secondary, w) ∷ [] })
  unfolding classify classify_window
  classify-swapped now name primary secondary w v h k = ground arith
