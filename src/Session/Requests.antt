-- ===== src/Session/Requests.antt =====
-- What the tracker's calls do to sessions with requests in flight.
use corrall.Prelude.{
  ◌+◌, ◌^◌, ◌<◌, String, ◌≡◌, refl, ◌≢◌, Bool, true, false, inl, inr, Option, some, Option-cases,
  arith, eq_iff,
}
use corrall.Prelude.Int.{ℤ}
use corrall.Prelude.Json.{Json}
use corrall.Prelude.Maps.{lookup, update, lookup-insert, lookup-remove, lookup-update}
use corrall.Prelude.Maps.Unique.{lookup-keep}
use corrall.Session.{
  Session, SessionTracker, sweep, longest_idle, evict, make_room, enrol, ensure, ensured,
  new_session, begin_request, end_request, touch, valid_session_id, begin_session, end_session,
  touch_session, or_kept, record_tokens,
}
use corrall.Session.Table.{IsTable, sweep-IsTable, longest_idle_found}

module _ (id : String) (s : Session) (busy : 0 < s.in_flight) where
  -- The session stands in the table.
  abbrev Holds : SessionTracker → Type 0
  Holds t = lookup id t.sessions ≡ some s

  sweep-busy : (now : ℤ) (t : SessionTracker) → Holds t → Holds (sweep now t)
  unfolding sweep
  sweep-busy now t h = lookup-keep _ id s t.sessions (ground arith) h

  evict-busy : (t : SessionTracker) → IsTable t → Holds t → Holds (evict t).0
  unfolding evict
  evict-busy t v h = elim (Option-cases (longest_idle t.sessions)) [
    | inl e ↦ rw (e, evict) h
    | inr (found, e) ↦
        rw (e, evict)
          (ground (
            arith,
            longest_idle_found t.sessions found.0 found.1 v.unique,
            lookup-remove found.0 id t.sessions,
            eq_iff found.0 id,
          ))
  ]

  make_room-busy : (now : ℤ) (t : SessionTracker) → IsTable t → Holds t → Holds (make_room now t).0
  unfolding make_room
  make_room-busy now t v h = ground (
    arith,
    sweep-busy now t h,
    evict-busy (sweep now t) (sweep-IsTable now t v) (sweep-busy now t h),
  )

  enrol-busy :
      (other : String) (now : ℤ) (r : SessionTracker × Bool)
      → id ≢ other
      → Holds r.0
      → Holds (enrol other now r).0
  enrol-busy other now (t, true) ne h =
      ground (arith, lookup-insert other id (new_session now) t.sessions, eq_iff other id)
  enrol-busy other now (t, false) ne h = h

  ensure-busy :
      (other : String) (now : ℤ) (t : SessionTracker)
      → IsTable t
      → id ≢ other
      → Holds t
      → Holds (ensure other now t).0
  unfolding ensure
  ensure-busy other now t v ne h =
      ground (arith, enrol-busy other now (make_room now t) ne (make_room-busy now t v h))

  ensured-busy :
      (other : String) (f : Session → Session) (r : SessionTracker × Bool)
      → id ≢ other
      → Holds r.0
      → Holds (ensured other f r)
  unfolding ensured
  ensured-busy other f (t, true) ne h =
      ground (arith, lookup-update other id f t.sessions, eq_iff other id)
  ensured-busy other f (t, false) ne h = h

  -- A session with a request in flight is left as it is when, for another session, a request begins
  -- or ends, a pin is touched or tokens are counted: neither the sweep nor the eviction of a full
  -- table takes it.
  pub busy_kept :
      {F : Type 0} (other bucket : String) (client account pin : Option String) (usage : Json F)
      (now : ℤ) (t : SessionTracker)
      → IsTable t
      → id ≢ other
      → lookup id t.sessions ≡ some s
      → (lookup id (begin_request other client now t).sessions ≡ some s)
        × (lookup id (touch other account pin now t).sessions ≡ some s)
        × (lookup id (end_request other now t).sessions ≡ some s)
        × (lookup id (record_tokens other bucket usage now t).sessions ≡ some s)
  unfolding begin_request touch end_request record_tokens
  busy_kept other bucket client account pin usage now t v ne h = (
    ensured-busy other (begin_session client now) (ensure other now t) ne
        (ensure-busy other now t v ne h),
    ensured-busy other (touch_session account pin now) (ensure other now t) ne
        (ensure-busy other now t v ne h),
    ground (
      arith,
      changed (end_session now),
      sweep-busy now (record t { sessions = update other (end_session now) t.sessions })
          (changed (end_session now)),
    ),
    changed _,
  )
    where
      changed : (f : Session → Session) → Holds (record t { sessions = update other f t.sessions })
      changed f = ground (arith, lookup-update other id f t.sessions, eq_iff other id)

-- A valid id that is known is changed in place.
begin_known :
    (id : String) (client : Option String) (now : ℤ) (t : SessionTracker) (s : Session)
    → valid_session_id id ≡ true
    → lookup id t.sessions ≡ some s
    → begin_request id client now t
      ≡ record t { sessions = update id (begin_session client now) t.sessions }
unfolding begin_request ensure ensured
begin_known id client now t s valid e = ground arith

-- A session seen just now survives the sweep.
sweep-seen :
    (id : String) (now : ℤ) (t : SessionTracker) (s : Session)
    → s.last_seen ≡ now
    → lookup id t.sessions ≡ some s
    → lookup id (sweep now t).sessions ≡ some s
unfolding sweep
sweep-seen id now t s seen h = lookup-keep _ id s t.sessions (ground arith) h

end_known :
    (id : String) (now : ℤ) (t : SessionTracker) (s : Session)
    → lookup id t.sessions ≡ some s
    → lookup id (end_request id now t).sessions ≡ some (end_session now s)
unfolding end_request
end_known id now t s h = ground (
  arith,
  sweep-seen id now (record t { sessions = update id (end_session now) t.sessions })
      (end_session now s) refl ended,
  ended,
)
  where
    ended : lookup id (update id (end_session now) t.sessions) ≡ some (end_session now s)
    ended = ground (arith, lookup-update id id (end_session now) t.sessions, eq_iff id id)

-- Of a session that is in the table, a request that begins at one time and ends at another leaves the
-- count of requests in flight as it was and the session in the table, seen last when the request
-- ended, however long it took: the sweep at the end cannot take it. The count must not be at the top
-- of a `u32`.
pub end-begin_request :
    (id : String) (client : Option String) (now later : ℤ) (t : SessionTracker) (s : Session)
    → valid_session_id id ≡ true
    → lookup id t.sessions ≡ some s
    → s.in_flight + 1 < 2 ^ 32
    → lookup id (end_request id later (begin_request id client now t)).sessions
      ≡ some (record s { last_seen = later; client = or_kept client s.client })
end-begin_request id client now later t s valid e small =
    rw (begin_known id client now t s valid e) (
      ground (
        arith,
        end_known id later (record t { sessions = update id (begin_session client now) t.sessions })
            (begin_session client now s),
        lookup-update id id (begin_session client now) t.sessions,
        eq_iff id id,
      ))
