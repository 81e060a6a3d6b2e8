-- ===== src/Fleet/Tallies.antt =====
-- src/manager.rs: the usage that is counted for accounts, clients and dimensions.
-- `stamp` is the text of the present time, from the chrono crate.
pub mod Dimensions
use mathlib.Core.Option
use corrall.Prelude.{
  ℕ, ◌+◌, ◌-◌, ◌*◌, ◌%◌, ◌^◌, String, Bool, true, false, not, ◌&&◌, ◌||◌, List, [], ◌∷◌, keep, map,
  Option, none, some, ltb, leb, length, if◌then◌else◌, ◌==◌,
}
use corrall.Prelude.Int.{ℤ, pos, ltb_ℤ, leb_ℤ, younger, add_i64, sub_i64, scale_i64, wrap_i64}
use corrall.Prelude.Bytes.{Bytes}
use corrall.Prelude.Float.{Float}
use corrall.Prelude.Maps.{Map, lookup, insert, insert_sorted, update, remove, has_key}
use corrall.Prelude.Json.{Json, get, as_i64}
use corrall.Model.{weekly_bucket_for}
use corrall.Config.{is_text}
use corrall.Session.{record_tokens, touch, begin_request, end_request}
use corrall.Fleet.{
  Account, Fleet, Status, Provider, Usage, ProbeAccount, account, account_mut, is_throttled,
  is_error, is_oauth, is_provider,
}
use corrall.Fleet.Upstream.{Platform}
use corrall.Fleet.Eligibility.{Reason, is_none, near_quota, unavailable_reason}
use corrall.Fleet.Cursor.{begin_ramp}

abbrev pub dimension_max_values : ℕ
dimension_max_values = 500

abbrev pub dimension_overflow_key : String
dimension_overflow_key = "(other)"

abbrev pub no_usage : Usage
no_usage = record {
  total_requests = 0;
  failed_requests = 0;
  last_used = none;
  input_tokens = pos 0;
  output_tokens = pos 0;
  cache_read_tokens = pos 0;
  cache_creation_tokens = pos 0;
}

-- `n += 1` on a `u64`
abbrev pub one_more : ℕ → ℕ
one_more n = (n + 1) % 2 ^ 64

-- `entry(key).or_default()` with a change to the value, in a sorted table.
unfoldable pub tally : (Usage → Usage) → String → Map Usage → Map Usage
tally change key table = elim (lookup key table) [
  | some u ↦ update key change table
  | none ↦ insert_sorted key (change no_usage) table
]

-- A new value past the limit is counted under one key.
unfoldable pub dimension_key : String → Map Usage → String
dimension_key value table =
    if has_key value table || ltb (length table) dimension_max_values
    then value
    else dimension_overflow_key

unfoldable pub add_dimension : (Usage → Usage) → String → Map Usage → Map Usage
unfolding dimension_key tally
add_dimension change value table = tally change (dimension_key value table) table

unfoldable pub add_dimensions :
    (Usage → Usage) → List (String × String) → Map (Map Usage) → Map (Map Usage)
add_dimensions change [] tables = tables
add_dimensions change ((dim, value) ∷ dims) tables =
    add_dimensions change dims
      (insert_sorted dim (add_dimension change value (Option.get_or (lookup dim tables) [])) tables)

module _ {F : Type 0} where
  -- The closure `g`: a count of the report, or 0.
  abbrev pub reported : Json F → String → ℤ
  reported usage k = Option.get_or (Option.bind (get k usage) as_i64) (pos 0)

  -- The tokens of a report.
  abbrev pub add_report : Json F → Usage → Usage
  add_report usage u = record u {
    input_tokens = add_i64 u.input_tokens (reported usage "input_tokens");
    output_tokens = add_i64 u.output_tokens (reported usage "output_tokens");
    cache_read_tokens = add_i64 u.cache_read_tokens (reported usage "cache_read_input_tokens");
    cache_creation_tokens =
        add_i64 u.cache_creation_tokens (reported usage "cache_creation_input_tokens");
  }

  -- A request and its tokens.
  abbrev pub add_request : Json F → String → Usage → Usage
  add_request usage stamp u = record (add_report usage u) {
    total_requests = one_more u.total_requests;
    last_used = some stamp;
  }

  unfoldable pub record_token_usage_dims :
      String
      → Option String
      → Option String
      → List (String × String)
      → Option Bytes
      → Json F
      → ℤ
      → String
      → Fleet F
      → Fleet F
  unfolding add_dimensions tally
  record_token_usage_dims id session client dims model usage now stamp f =
      let g =
        account_mut id (λ a. record a { usage = add_report usage a.usage })
          (record f {
            dimension_usage = add_dimensions (add_request usage stamp) dims f.dimension_usage;
          }) in
      record g {
        client_usage = elim client [
          | none ↦ g.client_usage
          | some c ↦ tally (add_request usage stamp) c g.client_usage
        ];
        sessions = elim session [
          | none ↦ g.sessions
          | some s ↦ record_tokens s (weekly_bucket_for model) usage now g.sessions
        ];
      }

  unfoldable pub record_session : Option String → String → Option Bytes → ℤ → Fleet F → Fleet F
  record_session session id model now f = elim session [
    | none ↦ f
    | some s ↦ record f {
      sessions = touch s (some id) (some (weekly_bucket_for model)) now f.sessions;
    }
  ]
