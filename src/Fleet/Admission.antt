-- ===== src/Fleet/Admission.antt =====
-- src/manager.rs: the storm ramp that admits requests to an account, and the count of open ones.
-- A guard (`Slot`, `Open`) is the call that its drop makes. `admit` waits by the clock: its fuel
-- counts its attempts, and nothing else changes the fleet between them.
use mathlib.Core.Option
use corrall.Prelude.{
  ℕ, zero, suc, ◌+◌, ◌-◌, ◌*◌, ◌/◌, ◌%◌, ◌^◌, String, Bool, true, false, not, Option, none, some,
  ltb, leb, if◌then◌else◌, ◌==◌,
}
use corrall.Prelude.Int.{ℤ, pos, pos_part, add_i64, sub_i64}
use corrall.Config.{StormRamp}
use corrall.Fleet.{Account, Fleet, account, account_mut}
pub mod Slots
pub mod Ramp

-- `x.max(1)`
abbrev pub at_least_one : ℕ → ℕ
at_least_one zero = 1
at_least_one (suc n) = suc n

-- How many requests may be in flight after `elapsed` milliseconds of the ramp.
unfoldable pub ramp_cap : StormRamp → ℕ → ℕ
ramp_cap storm elapsed =
    (at_least_one storm.start_conc + (elapsed / at_least_one storm.step_ms) * storm.step_conc)
    % 2 ^ 64

module _ {F : Type 0} where
  abbrev pub count_in : Account F → Account F
  count_in a = record a { in_flight = (a.in_flight + 1) % 2 ^ 32 }

  -- The account after a request is admitted, or `none` if it has to wait.
  unfoldable pub admit_account : StormRamp → ℤ → Account F → Option (Account F)
  unfolding ramp_cap
  admit_account storm now a =
      if not storm.enabled then some (count_in a) else elim a.ramp_started_at [
        | none ↦ some (count_in a)
        | some started ↦
            let elapsed = pos_part (sub_i64 now started) in
            if leb storm.window_ms elapsed
            then some (count_in (record a { ramp_started_at = none }))
            else if ltb a.in_flight (ramp_cap storm elapsed)
            then some (count_in a)
            else none
      ]

  -- Whether the request is admitted, and how long to wait.
  unfoldable pub try_admit : String → ℤ → Fleet F → Fleet F × Bool × ℕ
  unfolding admit_account
  try_admit id now f = elim (account f id) [
    | none ↦ (f, true, 0)
    | some a ↦ elim (admit_account f.storm now a) [
      | none ↦ (f, false, 50)
      | some b ↦ (account_mut id (λ x. b) f, true, 0)
    ]
  ]

  -- `Manager::admit`: the fleet and the time when the slot is given.
  unfoldable pub admit : ℕ → String → ℤ → Fleet F → Option (Fleet F × ℤ)
  admit zero id now f = none
  admit (suc fuel) id now f =
      let answer = try_admit id now f in
      let rest = admit fuel id (add_i64 now (pos answer.2)) answer.0 in
      if answer.1 then some (answer.0, now) else rest

  -- The drop of a `Slot`.
  unfoldable pub release : String → Fleet F → Fleet F
  release id f = account_mut id (λ a. record a { in_flight = a.in_flight - 1 }) f

  -- `Manager::open` and the drop of an `Open`.
  unfoldable pub open_request : String → Fleet F → Fleet F
  open_request id f =
      account_mut id (λ a. record a { open_requests = (a.open_requests + 1) % 2 ^ 32 }) f

  unfoldable pub close_request : String → Fleet F → Fleet F
  close_request id f = account_mut id (λ a. record a { open_requests = a.open_requests - 1 }) f
