-- ===== src/Fleet/Admission/Ramp.antt =====
-- src/manager.rs: the loop of `Manager::admit` and the window of the ramp.
use corrall.Prelude.{
  ℕ, zero, suc, ◌+◌, ◌-◌, ◌*◌, ◌^◌, ◌<◌, ◌≤◌, String, ◌≡◌, refl, true, false, not, none, some,
  arith, ltb, leb, if◌then◌else◌, Option-cases, inl, inr,
}
use corrall.Prelude.Int.{ℤ, pos, pos_part, add_i64, sub_i64, wrap_i64, ◌+ℤ◌, ◌-ℤ◌}
use corrall.Config.{StormRamp}
use corrall.Fleet.{Account, Fleet, account, account_mut}
use corrall.Fleet.Admission.{admit_account, ramp_cap, try_admit, admit, count_in}

-- Time goes on by 50 milliseconds.
later : (n : ℕ) → n + 50 < 2 ^ 63 → add_i64 (pos n) (pos 50) ≡ pos (n + 50)
unfolding add_i64 wrap_i64 ◌+ℤ◌
later n h = ground arith

passed : (n s : ℕ) → n < 2 ^ 63 → s < 2 ^ 63 → pos_part (sub_i64 (pos n) (pos s)) ≡ n - s
unfolding sub_i64 wrap_i64 ◌-ℤ◌
passed n s h h' = ground arith

module _ {F : Type 0} where
  -- Past the window the request is admitted.
  admits_after :
      (storm : StormRamp) (n s : ℕ) (a : Account F)
      → a.ramp_started_at ≡ some (pos s)
      → n < 2 ^ 63
      → s < 2 ^ 63
      → storm.window_ms + s ≤ n
      → (b : Account F) × (admit_account storm (pos n) a ≡ some b)
  unfolding admit_account
  admits_after storm n s a ramp h h' over =
      let time = passed n s h h' in
      let ended : leb storm.window_ms (n - s) ≡ true = ground arith in
      elim storm.enabled
        as (λ t.
          (b : Account F) × ((if not t then some (count_in a) else elim a.ramp_started_at [
            | none ↦ some (count_in a)
            | some started ↦
                if leb storm.window_ms (pos_part (sub_i64 (pos n) started))
                then some (count_in (record a { ramp_started_at = none }))
                else if ltb a.in_flight (ramp_cap storm (pos_part (sub_i64 (pos n) started)))
                then some (count_in a)
                else none
          ])
            ≡ some b)) [
              | false ↦ (count_in a, refl)
              | true ↦ (count_in (record a { ramp_started_at = none }), rw (ramp, time, ended))
            ]

  try_admit-slot :
      (id : String) (now : ℤ) (f : Fleet F) (a b : Account F)
      → account f id ≡ some a
      → admit_account f.storm now a ≡ some b
      → try_admit id now f ≡ (account_mut id (λ x. b) f, true, 0)
  unfolding try_admit
  try_admit-slot id now f a b found h = rw (try_admit, found, h)

  try_admit-no_slot :
      (id : String) (now : ℤ) (f : Fleet F) (a : Account F)
      → account f id ≡ some a
      → admit_account f.storm now a ≡ none
      → try_admit id now f ≡ (f, false, 50)
  unfolding try_admit
  try_admit-no_slot id now f a found h = rw (try_admit, found, h)

  -- An attempt that is admitted is the last one.
  admit-last :
      (fuel : ℕ) (id : String) (now : ℤ) (f : Fleet F) (a b : Account F)
      → account f id ≡ some a
      → admit_account f.storm now a ≡ some b
      → (g : Fleet F) × (t : ℤ) × (admit (suc fuel) id now f ≡ some (g, t))
  unfolding admit
  admit-last fuel id now f a b found h =
      (account_mut id (λ x. b) f, now, rw (try_admit-slot id now f a b found h))

  -- One that is refused is repeated after 50 milliseconds.
  admit-again :
      (fuel : ℕ) (id : String) (now : ℤ) (f : Fleet F) (a : Account F)
      → account f id ≡ some a
      → admit_account f.storm now a ≡ none
      → admit (suc fuel) id now f ≡ admit fuel id (add_i64 now (pos 50)) f
  unfolding admit
  admit-again fuel id now f a found h = rw (try_admit-no_slot id now f a found h)

  -- A request that asks again every 50 milliseconds gets its slot: enough attempts to pass the end
  -- of the window are enough.
  pub admit-returns :
      (fuel : ℕ) (id : String) (n s : ℕ) (f : Fleet F) (a : Account F)
      → account f id ≡ some a
      → a.ramp_started_at ≡ some (pos s)
      → s < 2 ^ 63
      → n + 50 * fuel < 2 ^ 63
      → f.storm.window_ms + s ≤ n + 50 * fuel
      → (g : Fleet F) × (t : ℤ) × (admit (suc fuel) id (pos n) f ≡ some (g, t))
  admit-returns zero id n s f a found ramp h' h over =
      let (b, e) = admits_after f.storm n s a ramp (omega arith) h' (omega arith) in
      admit-last zero id (pos n) f a b found e
  admit-returns (suc fuel) id n s f a found ramp h' h over =
      let (g, t, e) =
        admit-returns fuel id (n + 50) s f a found ramp h' (omega arith) (omega arith) in
      let tick = later n (omega arith) in
      elim (Option-cases (admit_account f.storm (pos n) a)) [
        | inl no_slot ↦ (g, t, rw (admit-again (suc fuel) id (pos n) f a found no_slot, tick) e)
        | inr (b, slot) ↦ admit-last (suc fuel) id (pos n) f a b found slot
      ]
