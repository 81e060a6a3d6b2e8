-- ===== src/Session.antt =====
-- src/session.rs: Claude Code sessions, their pins and their load.
-- A `HashMap` is an association list whose order stands for its order of iteration. A method that
-- changes the tracker returns it; `ensure` also says whether the session is there afterwards.
pub mod Table
pub mod Capacity
pub mod Requests
pub mod Pins
pub mod Load
use mathlib.Core.Option
use Prim.Native.String.{len}
use corrall.Prelude.{
  ℕ, ◌+◌, ◌-◌, ◌*◌, ◌%◌, ◌^◌, String, Bool, true, false, not, ◌&&◌, ◌||◌, List, [], ◌∷◌, map,
  Option, none, some, ltb, leb, eqb, all, any, keep, length, if◌then◌else◌, ◌==◌,
}
use corrall.Prelude.Int.{ℤ, pos, leb_ℤ, older, younger, add_i64}
use corrall.Prelude.Bytes.{codes, is_digit}
use corrall.Prelude.Maps.{Map, lookup, insert, remove, update, has_key}
use corrall.Prelude.Json.{Json, get, as_i64}

abbrev pub session_known_ttl_ms : ℕ
session_known_ttl_ms = 60 * 60 * 1000

abbrev pub session_active_ttl_ms : ℕ
session_active_ttl_ms = 2 * 60 * 1000

abbrev pub max_sessions : ℕ
max_sessions = 10000

abbrev pub sweep_interval_ms : ℕ
sweep_interval_ms = 60 * 1000

pub record TokenTotals : Type 0 where
  pub cache_read : ℤ
  pub cache_creation : ℤ
  pub input : ℤ
  pub output : ℤ
  pub context : ℤ
  pub reports : ℤ

abbrev pub no_tokens : TokenTotals
no_tokens = record {
  cache_read = pos 0;
  cache_creation = pos 0;
  input = pos 0;
  output = pos 0;
  context = pos 0;
  reports = pos 0;
}

-- `pins` holds an account id for each weekly bucket.
pub record Session : Type 0 where
  pub pins : Map String
  pub first_seen : ℤ
  pub last_seen : ℤ
  pub count : ℕ
  pub in_flight : ℕ
  pub client : Option String
  pub tokens : Map TokenTotals

pub record SessionStats : Type 0 where
  pub active : ℕ
  pub known : ℕ
  pub in_flight : ℕ
  pub per_account_active : Map ℕ
  pub per_account_in_flight : Map ℕ

pub record SessionTracker : Type 0 where
  pub sessions : Map Session
  pub last_sweep : ℤ

is_alphanumeric : ℕ → Bool
is_alphanumeric c = is_digit c || ((leb b'a' c && leb c b'z') || (leb b'A' c && leb c b'Z'))

is_id_char : ℕ → Bool
unfolding is_alphanumeric is_digit
is_id_char c = is_alphanumeric c || (eqb c b'-' || (eqb c b'_' || (eqb c b'.' || eqb c b':')))

-- UUID-like ids and short opaque tokens. `len` counts the bytes of the UTF-8 form.
unfoldable pub valid_session_id : String → Bool
unfolding is_id_char
valid_session_id id = not (id == "") && (leb (len id) 128 && all is_id_char (codes id))

abbrev pub new : SessionTracker
new = record { sessions = []; last_sweep = pos 0 }

abbrev pub new_session : ℤ → Session
new_session now = record {
  pins = [];
  first_seen = now;
  last_seen = now;
  count = 0;
  in_flight = 0;
  client = none;
  tokens = [];
}

-- The test of `sweep`: in use, or seen within the hour.
abbrev pub is_known : ℤ → Session → Bool
is_known now s = ltb 0 s.in_flight || younger now s.last_seen session_known_ttl_ms

unfoldable pub sweep : ℤ → SessionTracker → SessionTracker
sweep now t = record {
  sessions = keep (λ (e : String × Session). is_known now e.1) t.sessions;
  last_sweep = now;
}

-- `min_by_key` on the sessions with nothing in flight: the first one seen longest ago.
unfoldable pub longest_idle : Map Session → Option (String × Session)
longest_idle [] = none
longest_idle ((k, s) ∷ m) =
    let rest = longest_idle m in
    if eqb s.in_flight 0
    then elim rest [
      | none ↦ some (k, s)
      | some (j, r) ↦ if leb_ℤ s.last_seen r.last_seen then some (k, s) else some (j, r)
    ]
    else rest

-- The longest-idle session goes, if any is idle.
unfoldable pub evict : SessionTracker → SessionTracker × Bool
evict t = elim (longest_idle t.sessions) [
  | none ↦ (t, false)
  | some (k, s) ↦ (record t { sessions = remove k t.sessions }, true)
]

abbrev pub is_full : SessionTracker → Bool
is_full t = leb max_sessions (length t.sessions)

-- A full table is swept, and if that frees nothing one session is evicted.
unfoldable pub make_room : ℤ → SessionTracker → SessionTracker × Bool
make_room now t =
    let swept = sweep now t in
    if is_full t then (if is_full swept then evict swept else (swept, true)) else (t, true)

abbrev pub enrol : String → ℤ → SessionTracker × Bool → SessionTracker × Bool
enrol id now (room, there) =
    if there
    then (record room { sessions = insert id (new_session now) room.sessions }, true)
    else (room, false)

unfoldable pub ensure : String → ℤ → SessionTracker → SessionTracker × Bool
ensure id now t =
    if valid_session_id id
    then (if has_key id t.sessions then (t, true) else enrol id now (make_room now t))
    else (t, false)

-- Change the session that `ensure` made sure of.
unfoldable pub ensured : String → (Session → Session) → SessionTracker × Bool → SessionTracker
ensured id f (t, there) = if there then record t { sessions = update id f t.sessions } else t

abbrev pub or_kept {ℓ} : {A : Type ℓ} → Option A → Option A → Option A
or_kept (some a) o = some a
or_kept none o = o

abbrev pub begin_session : Option String → ℤ → Session → Session
begin_session client now s = record s {
  in_flight = (s.in_flight + 1) % 2 ^ 32;
  last_seen = now;
  client = or_kept client s.client;
}

unfoldable pub begin_request : String → Option String → ℤ → SessionTracker → SessionTracker
begin_request id client now t = ensured id (begin_session client now) (ensure id now t)

abbrev pub end_session : ℤ → Session → Session
end_session now s = record s { in_flight = s.in_flight - 1; last_seen = now }

unfoldable pub end_request : String → ℤ → SessionTracker → SessionTracker
end_request id now t =
    let ended = record t { sessions = update id (end_session now) t.sessions } in
    if older now t.last_sweep sweep_interval_ms then sweep now ended else ended

abbrev pub pin : Option String → Option String → Map String → Map String
pin (some account) (some bucket) pins = insert bucket account pins
pin (some account) none pins = pins
pin none bucket pins = pins

abbrev pub touch_session : Option String → Option String → ℤ → Session → Session
touch_session account bucket now s = record s {
  last_seen = now;
  count = (s.count + 1) % 2 ^ 64;
  pins = pin account bucket s.pins;
}

-- Record that a session was served by an account for a bucket.
unfoldable pub touch : String → Option String → Option String → ℤ → SessionTracker → SessionTracker
touch id account bucket now t = ensured id (touch_session account bucket now) (ensure id now t)

unfoldable pub pinned_account : String → String → SessionTracker → Option String
pinned_account id bucket t = Option.bind (lookup id t.sessions) (λ s. lookup bucket s.pins)

abbrev pub first_value : Map String → Option String
first_value [] = none
first_value ((b, a) ∷ pins) = some a

-- Any account this session already sits on.
unfoldable pub any_pin : String → SessionTracker → Option String
any_pin id t = Option.bind (lookup id t.sessions) (λ s. first_value s.pins)

module _ {F : Type 0} where
  abbrev pub usage_count : Json F → String → ℤ
  usage_count usage k = Option.get_or (Option.bind (get k usage) as_i64) (pos 0)

  unfoldable pub add_tokens : Json F → TokenTotals → TokenTotals
  add_tokens usage t =
      let cache_read = usage_count usage "cache_read_input_tokens" in
      let cache_creation = usage_count usage "cache_creation_input_tokens" in
      let input = usage_count usage "input_tokens" in
      record {
        cache_read = add_i64 t.cache_read cache_read;
        cache_creation = add_i64 t.cache_creation cache_creation;
        input = add_i64 t.input input;
        output = add_i64 t.output (usage_count usage "output_tokens");
        context = add_i64 (add_i64 cache_read cache_creation) input;
        reports = add_i64 t.reports (pos 1);
      }

  unfoldable pub record_tokens : String → String → Json F → ℤ → SessionTracker → SessionTracker
  record_tokens id bucket usage now t =
      let report = λ (s : Session). record s {
        tokens =
            insert bucket (add_tokens usage (Option.get_or (lookup bucket s.tokens) no_tokens))
              s.tokens;
        last_seen = now;
      } in
      record t { sessions = update id report t.sessions }

abbrev pub member : String → List String → Bool
member a ids = any (λ id. id == a) ids

abbrev pub live_pins : List String → Session → Session
live_pins live_ids s = record s {
  pins = keep (λ (e : String × String). member e.1 live_ids) s.pins;
}

-- Drop pins that name an account that no longer exists.
unfoldable pub remap_accounts : List String → SessionTracker → SessionTracker
remap_accounts live_ids t = record t {
  sessions = map (λ (e : String × Session). (e.0, live_pins live_ids e.1)) t.sessions;
}

unfoldable pub is_active : Session → ℤ → Bool
is_active s now = ltb 0 s.in_flight || younger now s.last_seen session_active_ttl_ms

-- `entry(k).or_default() += n`, on a `u32`.
unfoldable pub add_load : String → ℕ → Map ℕ → Map ℕ
add_load k n m = insert k ((Option.get_or (lookup k m) 0 + n) % 2 ^ 32) m

-- The accounts of a session's pins, each once (the set `seen`).
unfoldable pub distinct : List String → Map String → List String
distinct seen [] = []
distinct seen ((b, a) ∷ pins) =
    let next = a ∷ distinct (a ∷ seen) pins in
    let rest = distinct seen pins in if member a seen then rest else next

unfoldable pub add_account : Bool → ℕ → String → SessionStats → SessionStats
unfolding add_load
add_account active flight a st = record st {
  per_account_active = if active then add_load a 1 st.per_account_active else st.per_account_active;
  per_account_in_flight = add_load a flight st.per_account_in_flight;
}

unfoldable pub count_accounts : Bool → ℕ → List String → SessionStats → SessionStats
count_accounts active flight [] st = st
count_accounts active flight (a ∷ accounts) st =
    count_accounts active flight accounts (add_account active flight a st)

-- One round of the loop of `stats`.
unfoldable pub count_session : ℤ → Session → SessionStats → SessionStats
unfolding is_active
count_session now s st =
    if not (younger now s.last_seen session_known_ttl_ms) && eqb s.in_flight 0
    then st
    else count_accounts (is_active s now) s.in_flight (distinct [] s.pins) (record st {
      known = st.known + 1;
      in_flight = (st.in_flight + s.in_flight) % 2 ^ 32;
      active = if is_active s now then st.active + 1 else st.active;
    })

abbrev pub no_stats : SessionStats
no_stats = record {
  active = 0;
  known = 0;
  in_flight = 0;
  per_account_active = [];
  per_account_in_flight = [];
}

unfoldable pub count_sessions : ℤ → Map Session → SessionStats → SessionStats
count_sessions now [] st = st
count_sessions now ((k, s) ∷ m) st = count_sessions now m (count_session now s st)

unfoldable pub stats : ℤ → SessionTracker → SessionStats
stats now t = count_sessions now t.sessions no_stats
