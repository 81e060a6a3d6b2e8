-- ===== src/Session/Table.antt =====
-- The session table: its ids and its size.
use mathlib.Core.Bool.{Bool}
use corrall.Prelude.{
  suc, ◌≤◌, String, ◌≡◌, refl, true, false, inl, inr, [], ◌∷◌, some, Bool-cases, Option-cases,
  length, length-keep-le, arith, eq_iff,
}
use corrall.Prelude.Int.{ℤ}
use corrall.Prelude.Maps.{
  Map, lookup, remove, update, length-insert, length-remove-lt, length-update,
}
use corrall.Prelude.Maps.Unique.{Unique, insert-Unique, remove-Unique, update-Unique, keep-Unique}
use corrall.Session.{
  Session, SessionTracker, max_sessions, sweep, longest_idle, evict, make_room, enrol, ensure,
  ensured, is_full, new_session,
}

pub record IsTable (t : SessionTracker) : Type 0 where
  pub unique : Unique t.sessions
  pub bounded : length t.sessions ≤ max_sessions

pub sweep-IsTable : (now : ℤ) (t : SessionTracker) → IsTable t → IsTable (sweep now t)
unfolding sweep
sweep-IsTable now t v = record {
  unique = keep-Unique _ t.sessions v.unique;
  bounded = omega (arith, length-keep-le _ t.sessions);
}

pub update-IsTable :
    (id : String) (f : Session → Session) (t : SessionTracker)
    → IsTable t
    → IsTable (record t { sessions = update id f t.sessions })
update-IsTable id f t v = record {
  unique = update-Unique id f t.sessions v.unique;
  bounded = omega (arith, length-update id f t.sessions);
}

-- The longest-idle session stands in the table and has nothing in flight.
pub longest_idle_found :
    (m : Map Session) (k : String) (s : Session)
    → Unique m
    → longest_idle m ≡ some (k, s)
    → (lookup k m ≡ some s) × (s.in_flight ≡ 0)
unfolding longest_idle lookup
longest_idle_found [] k s u e = absurd (ground arith)
longest_idle_found ((j, r) ∷ m) k s u e = ground (arith, longest_idle_found m k s u.1, eq_iff j k)

-- The table is in order, and has room for one more where it says so.
abbrev HasRoom : SessionTracker × Bool → Type 0
HasRoom (t, there) = IsTable t × (there ≡ true → suc (length t.sessions) ≤ max_sessions)

evict-HasRoom : (t : SessionTracker) → IsTable t → HasRoom (evict t)
unfolding evict
evict-HasRoom t v = elim (Option-cases (longest_idle t.sessions)) [
  | inl e ↦ rw (e, evict) (v, λ h. absurd (ground arith))
  | inr (found, e) ↦
      rw (e, evict)
        (
          record {
            unique = remove-Unique found.0 t.sessions v.unique;
            bounded = omega (arith, removed found e, v.bounded);
          },
          λ h. omega (arith, removed found e, v.bounded),
        )
]
  where
    removed :
        (found : String × Session)
        → longest_idle t.sessions ≡ some found
        → suc (length (remove found.0 t.sessions)) ≤ length t.sessions
    removed found e =
        length-remove-lt found.0 t.sessions
          (ground (arith, longest_idle_found t.sessions found.0 found.1 v.unique e))

make_room-HasRoom : (now : ℤ) (t : SessionTracker) → IsTable t → HasRoom (make_room now t)
unfolding make_room
make_room-HasRoom now t v = elim (Bool-cases (is_full t)) [
  | inl full ↦ elim (Bool-cases (is_full (sweep now t))) [
    | inl again ↦ rw (full, again) (evict-HasRoom (sweep now t) (sweep-IsTable now t v))
    | inr room ↦ rw (full, room) (sweep-IsTable now t v, λ h. ground arith)
  ]
  | inr room ↦ rw room (v, λ h. ground arith)
]

enrol-IsTable :
    (id : String) (now : ℤ) (r : SessionTracker × Bool) → HasRoom r → IsTable (enrol id now r).0
enrol-IsTable id now (t, true) (v, room) = record {
  unique = insert-Unique id _ t.sessions v.unique;
  bounded = ground (arith, length-insert id (new_session now) t.sessions, room refl, v.bounded);
}
enrol-IsTable id now (t, false) (v, room) = v

pub ensure-IsTable :
    (id : String) (now : ℤ) (t : SessionTracker) → IsTable t → IsTable (ensure id now t).0
unfolding ensure
ensure-IsTable id now t v =
    ground (arith, enrol-IsTable id now (make_room now t) (make_room-HasRoom now t v))

pub ensured-IsTable :
    (id : String) (f : Session → Session) (r : SessionTracker × Bool)
    → IsTable r.0
    → IsTable (ensured id f r)
unfolding ensured
ensured-IsTable id f (t, true) v = update-IsTable id f t v
ensured-IsTable id f (t, false) v = v
