-- ===== src/Prober.antt =====
-- src/prober.rs: when which account is probed. An `Instant` and a `Duration` are nanoseconds; the
-- source panics where a sum of them passes its range, which is not modelled. The table of the pools
-- is handed in and returned, and the waiting and the requests themselves are not modelled.
pub mod Bookings
pub mod Liveness
pub mod Backoff
use mathlib.Core.Option
use corrall.Prelude.{
  ℕ, ◌+◌, ◌-◌, ◌*◌, ◌/◌, ◌%◌, ◌^◌, String, Bool, true, false, not, ◌&&◌, List, [], ◌∷◌, Option,
  none, some, any, keep, length, ltb, leb, eqb, if◌then◌else◌, ◌==◌,
}
use corrall.Prelude.Maps.{Map, lookup, insert_sorted, remove}
use corrall.Session.{member}

-- Nanoseconds in a second.
abbrev pub second : ℕ
second = 10 ^ 9

abbrev pub min_interval : ℕ
min_interval = 30

abbrev pub max_backoff : ℕ
max_backoff = 3600 * second

abbrev pub manual_min_gap : ℕ
manual_min_gap = 30 * second

-- `u64::max` and `Duration::min`
abbrev pub greater : ℕ → ℕ → ℕ
greater a b = if leb a b then b else a

abbrev pub lesser : ℕ → ℕ → ℕ
lesser a b = if leb a b then a else b

pub record Seen : Type 0 where
  pub on : Bool
  pub not_before : Option ℕ
  pub due : Map ℕ

abbrev pub unseen : Seen
unseen = record { on = false; not_before = none; due = [] }

pub record Claim : Type 0 where
  pub newly_on : Bool
  pub accounts : List (String × String)
  pub next : Option ℕ

abbrev pub interval_of : ℕ → ℕ
interval_of secs = greater secs min_interval * second

-- When the account at place i of n is next due, or `none` where its turn has not come.
abbrev pub next_turn : Bool → ℕ → ℕ → ℕ → ℕ → Option ℕ → Option ℕ
next_turn newly_on interval n now i none =
    some (if newly_on then now + interval + (interval * i) / n else now + interval)
next_turn newly_on interval n now i (some t) =
    if ltb now t
    then none
    else some (if ltb now (t + interval) then t + interval else now + interval)

-- The loop over the accounts, from place i on: the bookings, and who is probed now.
unfoldable pub book :
    Bool → ℕ → ℕ → ℕ → List (String × String) → ℕ → Map ℕ → Map ℕ × List (String × String)
book newly_on interval n now [] i due = (due, [])
book newly_on interval n now ((id, name) ∷ accounts) i due =
    elim (next_turn newly_on interval n now i (lookup id due)) [
      | none ↦ book newly_on interval n now accounts (i + 1) due
      | some t ↦
          let (due', picked) =
            book newly_on interval n now accounts (i + 1) (insert_sorted id t due) in
          (due', (id, name) ∷ picked)
    ]

-- `values().min()`
abbrev pub earliest : Map ℕ → Option ℕ
earliest [] = none
earliest ((k, t) ∷ due) = elim (earliest due) [ none ↦ some t | some u ↦ some (lesser t u) ]

abbrev pub is_booked_for : List (String × String) → List String → String × ℕ → Bool
is_booked_for accounts recheck (id, t) =
    any (λ (a : String × String). a.0 == id) accounts && not (member id recheck)

abbrev pub is_off : ℕ → Option ℕ → Bool
is_off now none = false
is_off now (some t) = ltb now t

abbrev pub is_empty : List (String × String) → Bool
is_empty [] = true
is_empty (a ∷ accounts) = false

-- One pool's tick on its own entry: what is due is booked anew.
unfoldable pub claim : ℕ → List (String × String) → List String → ℕ → Seen → Seen × Option Claim
unfolding book
claim secs accounts recheck now entry =
    let kept = keep (is_booked_for accounts recheck) entry.due in
    let (due, picked) =
      book (not entry.on) (interval_of secs) (greater (length accounts) 1) now accounts 0 kept in
    (
      record entry { on = true; due = due },
      if is_empty picked && entry.on
          then none
          else some (record { newly_on = not entry.on; accounts = picked; next = earliest due }),
    )

-- `Prober::claim_due`
unfoldable pub claim_due :
    String → ℕ → List (String × String) → List String → ℕ → Map Seen → Map Seen × Option Claim
claim_due pool secs accounts recheck now seen =
    let entry = Option.get_or (lookup pool seen) unseen in
    if eqb secs 0
    then (remove pool seen, none)
    else if is_off now entry.not_before
    then (insert_sorted pool entry seen, none)
    else let (entry', claimed) = claim secs accounts recheck now entry in
      (insert_sorted pool entry' seen, claimed)

-- `Prober::next_due`
unfoldable pub next_due : String → Map Seen → Option ℕ
next_due pool seen = Option.bind (lookup pool seen) (λ s. earliest s.due)

-- `Prober::back_off`: the table, and until when. The product of the seconds is that of a `u64`.
unfoldable pub back_off : String → ℕ → ℕ → Map Seen → Map Seen × ℕ
back_off pool secs now seen =
    let wait = lesser ((greater secs min_interval * 2) % 2 ^ 64 * second) max_backoff in
    let entry = Option.get_or (lookup pool seen) unseen in
    (insert_sorted pool (record entry { not_before = some (now + wait) }) seen, now + wait)

pub data ManualProbe : Type 0 where
  started already_running : ManualProbe
  too_soon : ℕ → ManualProbe

-- The run begins unless another one is in progress.
abbrev begin_manual : Bool → ℕ → Option ℕ → Option ℕ × ManualProbe
begin_manual true now last = (last, already_running)
begin_manual false now last = (some now, started)

-- `Prober::request_manual`, where `busy` says that a run is in progress: the time of the last
-- manual run, and the answer.
unfoldable pub request_manual : Bool → ℕ → Option ℕ → Option ℕ × ManualProbe
request_manual busy now none = begin_manual busy now none
request_manual busy now (some t) =
    let since = now - t in
    if ltb since manual_min_gap
    then (some t, too_soon (greater ((manual_min_gap - since) / second) 1))
    else begin_manual busy now (some t)
