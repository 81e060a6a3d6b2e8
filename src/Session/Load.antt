-- ===== src/Session/Load.antt =====
-- The load that the tracker reports.
use corrall.Prelude.{
  ℕ, ◌+◌, String, ◌≡◌, refl, Bool, List, [], ◌∷◌, length, arith, if◌then◌else◌, ◌%◌, ◌^◌, keep, ◌∙◌,
}
use corrall.Prelude.Int.{ℤ}
use corrall.Prelude.Maps.{Map}
use corrall.Session.{
  Session, SessionTracker, SessionStats, sweep, count_accounts, count_session, count_sessions,
  stats, is_active, is_known, distinct, no_stats, add_account,
}

count_accounts_known :
    (active : Bool) (flight : ℕ) (accounts : List String) (st : SessionStats)
    → ((count_accounts active flight accounts st).known ≡ st.known)
      × ((count_accounts active flight accounts st).active ≡ st.active)
unfolding count_accounts add_account
count_accounts_known active flight [] st = (refl, refl)
count_accounts_known active flight (a ∷ accounts) st =
    ground (arith, count_accounts_known active flight accounts (add_account active flight a st))

count_session_known :
    (now : ℤ) (s : Session) (st : SessionStats)
    → (count_session now s st).known ≡ (if is_known now s then st.known + 1 else st.known)
unfolding count_session
count_session_known now s st = ground (
  arith,
  count_accounts_known (is_active s now) s.in_flight (distinct [] s.pins) (record st {
    known = st.known + 1;
    in_flight = (st.in_flight + s.in_flight) % 2 ^ 32;
    active = if is_active s now then st.active + 1 else st.active;
  }),
)

count_sessions_known :
    (now : ℤ) (m : Map Session) (st : SessionStats)
    → (count_sessions now m st).known
      ≡ st.known + length (keep (λ (e : String × Session). is_known now e.1) m)
unfolding count_sessions
count_sessions_known now [] st = omega arith
count_sessions_known now ((k, s) ∷ m) st =
    ground
      (arith, count_sessions_known now m (count_session now s st), count_session_known now s st)

-- The sessions reported as known are those that a sweep at that time would leave.
known-sweep : (now : ℤ) (t : SessionTracker) → (stats now t).known ≡ length (sweep now t).sessions
unfolding stats sweep
known-sweep now t = count_sessions_known now t.sessions no_stats ∙ (omega arith)
