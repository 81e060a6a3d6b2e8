-- ===== src/Forward/Statuses/Holds.antt =====
-- src/proxy/forward.rs: how long an account whose quota was rejected is held.
use mathlib.Core.Option
use corrall.Prelude.{
  ℕ, ◌+◌, ◌-◌, ◌^◌, ◌≤◌, leb, String, ◌≡◌, refl, Bool, true, false, Option, none, some, arith, inl,
  inr, Bool-cases,
}
use corrall.Prelude.Int.{ℤ, pos, negsuc, leb_ℤ, ◌-ℤ◌, sub_i64, wrap_i64_small}
use corrall.Prelude.Bytes.{codes, trim, parse_i64, parse_i64-le}
use corrall.Prelude.Maps.{Map, lookup}
use corrall.Forward.Statuses.{
  RejectedWindow, five_hours, seven_days, fable_week, is_rejected, rejected_reset, reset_header,
  latest, quota_hold_secs,
}

parsed-le :
    (o : Option String) (n : ℕ)
    → Option.bind o (λ v. parse_i64 (trim (codes v))) ≡ some (pos n)
    → n ≤ 2 ^ 63 - 1
unfolding Option.bind
parsed-le none n k = absurd (cc k)
parsed-le (some v) n k = parse_i64-le (trim (codes v)) n k

-- A reset in a header is in range.
rejected_reset-le :
    (rl : Map String) (b : RejectedWindow) (n : ℕ)
    → rejected_reset rl b ≡ some (pos n)
    → n ≤ 2 ^ 63 - 1
unfolding rejected_reset
rejected_reset-le rl b n h = elim (Bool-cases (is_rejected rl b)) [
  | inl said ↦ parsed-le (lookup (reset_header b) rl) n (rw said at h)
  | inr unsaid ↦ absurd (cc (rw unsaid at h))
]

-- The later of two resets is in range and not before either.
latest-left :
    (o : Option ℤ) (r : ℕ)
    → r ≤ 2 ^ 63 - 1
    → ((n : ℕ) → o ≡ some (pos n) → n ≤ 2 ^ 63 - 1)
    → (m : ℕ) × (latest (some (pos r)) o ≡ some (pos m)) × (r ≤ m) × (m ≤ 2 ^ 63 - 1)
latest-left none r h k = (r, refl, omega arith, h)
latest-left (some (pos j)) r h k = elim (Bool-cases (leb_ℤ (pos r) (pos j))) [
  | inl below ↦ (j, rw below refl, ground (arith, below), k j refl)
  | inr above ↦ (r, rw above refl, omega arith, h)
]
latest-left (some (negsuc j)) r h k = (r, ground arith, omega arith, h)

latest-right :
    (o : Option ℤ) (r : ℕ)
    → r ≤ 2 ^ 63 - 1
    → ((n : ℕ) → o ≡ some (pos n) → n ≤ 2 ^ 63 - 1)
    → (m : ℕ) × (latest o (some (pos r)) ≡ some (pos m)) × (r ≤ m) × (m ≤ 2 ^ 63 - 1)
latest-right none r h k = (r, refl, omega arith, h)
latest-right (some (pos j)) r h k = elim (Bool-cases (leb_ℤ (pos j) (pos r))) [
  | inl below ↦ (r, rw below refl, omega arith, h)
  | inr above ↦ (j, rw above refl, ground (arith, above), k j refl)
]
latest-right (some (negsuc j)) r h k = (r, ground arith, omega arith, h)

difference : (m n : ℕ) → n ≤ m → (pos m -ℤ pos n) ≡ pos (m - n)
unfolding ◌-ℤ◌
difference m n h = ground (arith, h)

sub_i64-small : (m n : ℕ) → n ≤ m → m ≤ 2 ^ 63 - 1 → sub_i64 (pos m) (pos n) ≡ pos (m - n)
unfolding sub_i64
sub_i64-small m n h k = rw (difference m n h) (wrap_i64_small (m - n) (omega (arith, h, k)))

covers :
    (rl : Map String) (retry_after : ℤ) (n r m : ℕ)
    → latest (rejected_reset rl five_hours) (rejected_reset rl seven_days) ≡ some (pos m)
    → r ≤ m
    → m ≤ 2 ^ 63 - 1
    → r ≤ n + quota_hold_secs rl retry_after (pos n)
unfolding quota_hold_secs
covers rl retry_after n r m e h k = elim (Bool-cases (leb r n)) [
  | inl past ↦ ground (arith, past)
  | inr ahead ↦
      rw (quota_hold_secs, e, sub_i64-small m n (ground (arith, ahead, h)) k)
        (ground (arith, h, ahead))
]

-- The windows of the whole account.
abbrev pub is_account_wide : RejectedWindow → Bool
is_account_wide five_hours = true
is_account_wide seven_days = true
is_account_wide fable_week = false

-- The hold of a rejected quota reaches the reset of each window of the account that the response
-- says is rejected, by a clock that shows no time before 1970.
pub quota_hold_secs-covers :
    (rl : Map String) (retry_after : ℤ) (n r : ℕ) (b : RejectedWindow)
    → is_account_wide b ≡ true
    → rejected_reset rl b ≡ some (pos r)
    → r ≤ n + quota_hold_secs rl retry_after (pos n)
quota_hold_secs-covers rl retry_after n r five_hours wide h =
    let (m, e, l, top) =
      latest-left (rejected_reset rl seven_days) r (rejected_reset-le rl five_hours r h)
        (rejected_reset-le rl seven_days) in
    covers rl retry_after n r m (rw h e) l top
quota_hold_secs-covers rl retry_after n r seven_days wide h =
    let (m, e, l, top) =
      latest-right (rejected_reset rl five_hours) r (rejected_reset-le rl seven_days r h)
        (rejected_reset-le rl five_hours) in
    covers rl retry_after n r m (rw h e) l top
quota_hold_secs-covers rl retry_after n r fable_week wide h = absurd (cc wide)
