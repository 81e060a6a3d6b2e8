-- ===== src/Session/Pins.antt =====
-- The pins of a session.
use mathlib.Core.Option
use corrall.Prelude.{
  String, ◌≡◌, true, inl, inr, List, [], ◌∷◌, some, Option-cases, arith, eq_iff, keep,
}
use corrall.Prelude.Int.{ℤ}
use corrall.Prelude.Maps.{Map, lookup, has_key, lookup-insert, lookup-update}
use corrall.Prelude.Maps.Unique.{lookup-map_values}
use corrall.Session.{
  SessionTracker, make_room, ensure, ensured, new_session, touch, touch_session, pinned_account,
  any_pin, first_value, remap_accounts, live_pins, member,
}

-- Where `ensure` succeeds the session is in the table.
ensure_there :
    (id : String) (now : ℤ) (t : SessionTracker)
    → (ensure id now t).1 ≡ true
    → has_key id (ensure id now t).0.sessions ≡ true
unfolding ensure
ensure_there id now t there =
    ground (arith, lookup-insert id id (new_session now) (make_room now t).0.sessions, eq_iff id id)

-- A session that could be entered is pinned to the account that served it, for that bucket.
pinned_account-touch :
    (id account bucket : String) (now : ℤ) (t : SessionTracker)
    → (ensure id now t).1 ≡ true
    → pinned_account id bucket (touch id (some account) (some bucket) now t) ≡ some account
unfolding pinned_account touch ensured Option.bind
pinned_account-touch id account bucket now t there =
    elim (Option-cases (lookup id (ensure id now t).0.sessions)) [
      | inl e ↦ absurd (ground (arith, ensure_there id now t there))
      | inr (s, e) ↦ ground (
        arith,
        lookup-update id id (touch_session (some account) (some bucket) now)
            (ensure id now t).0.sessions,
        lookup-insert bucket bucket account s.pins,
        eq_iff id id,
        eq_iff bucket bucket,
      )
    ]

-- The pin names one of the accounts.
lookup-keep-member :
    (ids : List String) (b a : String) (m : Map String)
    → lookup b (keep (λ (e : String × String). member e.1 ids) m) ≡ some a
    → member a ids ≡ true
unfolding lookup
lookup-keep-member ids b a [] h = absurd (ground arith)
lookup-keep-member ids b a ((j, w) ∷ m) h = ground (arith, lookup-keep-member ids b a m)

first_value-member :
    (ids : List String) (a : String) (m : Map String)
    → first_value (keep (λ (e : String × String). member e.1 ids) m) ≡ some a
    → member a ids ≡ true
first_value-member ids a [] h = absurd (ground arith)
first_value-member ids a ((j, w) ∷ m) h = ground (arith, first_value-member ids a m)

-- After a reload no session is pinned to an account that is gone, in any bucket.
pinned_account-remap :
    (live_ids : List String) (id bucket a : String) (t : SessionTracker)
    → pinned_account id bucket (remap_accounts live_ids t) ≡ some a
    → member a live_ids ≡ true
unfolding pinned_account remap_accounts Option.bind
pinned_account-remap live_ids id bucket a t h = elim (Option-cases (lookup id t.sessions)) [
  | inl e ↦ ground (arith, lookup-map_values (live_pins live_ids) id t.sessions)
  | inr (s, e) ↦
      lookup-keep-member live_ids bucket a s.pins
        (ground (arith, lookup-map_values (live_pins live_ids) id t.sessions))
]

-- Nor does it keep any other pin to such an account for cache affinity.
any_pin-remap :
    (live_ids : List String) (id a : String) (t : SessionTracker)
    → any_pin id (remap_accounts live_ids t) ≡ some a
    → member a live_ids ≡ true
unfolding any_pin remap_accounts Option.bind
any_pin-remap live_ids id a t h = elim (Option-cases (lookup id t.sessions)) [
  | inl e ↦ ground (arith, lookup-map_values (live_pins live_ids) id t.sessions)
  | inr (s, e) ↦
      first_value-member live_ids a s.pins
        (ground (arith, lookup-map_values (live_pins live_ids) id t.sessions))
]
