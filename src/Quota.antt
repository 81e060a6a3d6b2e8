-- ===== src/Quota.antt =====
-- src/quota.rs: the buckets of an account's quota and how readings enter them.
-- `&mut self` methods return the new quota; `now_ms()` is the argument `now`, and the stale limit
-- that `family_stale_ms()` reads from the environment is the argument `stale`.
pub mod Expiry
pub mod Headers
pub mod Usage
pub mod Gating
pub mod Payload
use mathlib.Core.List.{foldl}
use mathlib.Core.Option
use corrall.Prelude.{
  ℕ, ◌*◌, String, Bool, true, false, not, ◌&&◌, List, [], ◌∷◌, map, Option, none, some, keep,
  if◌then◌else◌, ◌==◌,
}
use corrall.Prelude.Int.{ℤ, pos, leb_ℤ, ltb_ℤ, min_ℤ, older, older_than, within, scale_i64}
use corrall.Prelude.Bytes.{codes, trim, parse_i64}
use corrall.Prelude.Float.{Float}
use corrall.Prelude.Maps.{Map, lookup}
use corrall.Prelude.Json.{Json}
use corrall.Model.{bucket_5h, bucket_7d, bucket_7d_fable, bucket_7d_sonnet}

-- One reading: utilization 0..1 (more in overage), when the window resets, when it was read.
pub record Bucket (F : Type 0) : Type 0 where
  pub utilization : Option F
  pub reset_at : Option ℤ
  pub seen_at : Option ℤ

pub record Quota (F : Type 0) : Type 0 where
  pub unified5h : Bucket F
  pub unified7d : Bucket F
  pub unified7d_fable : Bucket F
  pub unified7d_sonnet : Bucket F
  pub scoped_weekly : Map (Bucket F)
  pub unified_status : Option String
  pub unified_status_seen_at : Option ℤ
  pub tokens_limit : Option ℤ
  pub tokens_remaining : Option ℤ
  pub requests_limit : Option ℤ
  pub requests_remaining : Option ℤ
  pub resets_at : Option String
  pub spend : Option (Json F)

-- The normalized payload of the usage endpoint.
pub record UsagePayload (F : Type 0) : Type 0 where
  pub five_hour : Option (Bucket F)
  pub seven_day : Option (Bucket F)
  pub seven_day_sonnet : Option (Bucket F)
  pub seven_day_fable : Option (Bucket F)
  pub scoped_weekly : Map (Bucket F)
  pub scoped_listed : Bool
  pub spend : Option (Json F)

abbrev pub same_window_slop_ms : ℕ
same_window_slop_ms = 5 * 60 * 1000

abbrev pub status_ttl_ms : ℕ
status_ttl_ms = 60 * 60 * 1000

module _ {F : Type 0} where
  abbrev pub no_reading : Bucket F
  no_reading = record { utilization = none; reset_at = none; seen_at = none }

  abbrev pub no_quota : Quota F
  no_quota = record {
    unified5h = no_reading;
    unified7d = no_reading;
    unified7d_fable = no_reading;
    unified7d_sonnet = no_reading;
    scoped_weekly = [];
    unified_status = none;
    unified_status_seen_at = none;
    tokens_limit = none;
    tokens_remaining = none;
    requests_limit = none;
    requests_remaining = none;
    resets_at = none;
    spend = none;
  }

  -- `Bucket::is_reset`
  unfoldable pub is_reset : Bucket F → ℤ → Bool
  is_reset b now = elim b.reset_at [ none ↦ false | some r ↦ leb_ℤ r now ]

  -- `Quota::bucket`
  unfoldable pub bucket : Quota F → String → Option (Bucket F)
  bucket q key =
      if key == bucket_5h
      then some q.unified5h
      else if key == bucket_7d
      then some q.unified7d
      else if key == bucket_7d_fable
      then some q.unified7d_fable
      else if key == bucket_7d_sonnet
      then some q.unified7d_sonnet
      else lookup key q.scoped_weekly

  -- `Quota::bucket_mut`: the bucket, and the quota with another value written to it.
  unfoldable pub bucket_mut : Quota F → String → Option (Bucket F × (Bucket F → Quota F))
  bucket_mut q key =
      if key == bucket_5h
      then some (q.unified5h, λ b. record q { unified5h = b })
      else if key == bucket_7d
      then some (q.unified7d, λ b. record q { unified7d = b })
      else if key == bucket_7d_fable
      then some (q.unified7d_fable, λ b. record q { unified7d_fable = b })
      else if key == bucket_7d_sonnet
      then some (q.unified7d_sonnet, λ b. record q { unified7d_sonnet = b })
      else none

  -- One round of the first loop of `clear_expired`.
  unfoldable pub reset_step : ℤ → Quota F × Bool → String → Quota F × Bool
  unfolding is_reset bucket_mut
  reset_step now (q, changed) key = elim (bucket_mut q key) [
    | none ↦ (q, changed)
    | some (b, put) ↦ if is_reset b now then (put no_reading, true) else (q, changed)
  ]

  -- The unified status is forgotten an hour after it was seen.
  unfoldable pub expire_status : ℤ → Quota F → Quota F
  expire_status now q = elim q.unified_status_seen_at [
    | none ↦ q
    | some seen ↦
        if older now seen status_ttl_ms
        then record q { unified_status = none; unified_status_seen_at = none }
        else q
  ]

  -- What `Quota::soonest_reset` falls back to: the ISO time of an API-key account. The parser of
  -- the chrono crate is the argument.
  unfoldable pub soonest_reset : (String → Option ℤ) → Quota F → Option ℤ
  soonest_reset parse_iso_ms q = elim q.unified5h.reset_at [
    | some a ↦ elim q.unified7d.reset_at [ some b ↦ some (min_ℤ a b) | none ↦ some a ]
    | none ↦ elim q.unified7d.reset_at [
      | some b ↦ some b
      | none ↦ Option.bind q.resets_at parse_iso_ms
    ]
  ]

abbrev pub or_else {ℓ} : {A : Type ℓ} → Option A → Option A → Option A
or_else (some a) o = some a
or_else none o = o

-- When a value was seen: now, if the response carries one.
abbrev pub stamp {ℓ} : {A : Type ℓ} → Option A → ℤ → Option ℤ → Option ℤ
stamp (some a) now seen = some now
stamp none now seen = seen

-- An integer header.
unfoldable pub int_header : Map String → String → Option ℤ
int_header h k = Option.bind (lookup k h) (λ v. parse_i64 (trim (codes v)))

-- A header of epoch seconds, in milliseconds.
unfoldable pub secs_header : Map String → String → Option ℤ
unfolding int_header
secs_header h k = Option.map (λ s. scale_i64 s 1000) (int_header h k)

module _ {F : Type 0} ⦃fl : Float F⦄ where
  -- A family reading at or over its threshold that is older than `stale`.
  unfoldable pub is_spent_stale : ℤ → ℤ → F → Bucket F → Bool
  is_spent_stale now stale th b = elim b.utilization [
    | none ↦ false
    | some u ↦ elim b.seen_at [ none ↦ false | some seen ↦ fl.ge u th && older_than now seen stale ]
  ]

  -- One round of the second loop of `clear_expired`.
  unfoldable pub stale_step : ℤ → ℤ → (String → F) → Quota F × Bool → String → Quota F × Bool
  unfolding is_spent_stale bucket_mut
  stale_step now stale threshold_for (q, changed) key = elim (bucket_mut q key) [
    | none ↦ (q, changed)
    | some (b, put) ↦
        if is_spent_stale now stale (threshold_for key) b
        then (put no_reading, true)
        else (q, changed)
  ]

  -- Drop windows that have rolled over, and spent family readings that have gone stale.
  unfoldable pub clear_expired : ℤ → ℤ → (String → F) → Quota F → Quota F × Bool
  unfolding is_reset
  clear_expired now stale threshold_for q =
      let windows =
        foldl (reset_step now) (q, false)
          (bucket_5h ∷ bucket_7d ∷ bucket_7d_fable ∷ bucket_7d_sonnet ∷ []) in
      let (q', changed) =
        foldl (stale_step now stale threshold_for) windows
          (bucket_7d_fable ∷ bucket_7d_sonnet ∷ []) in
      let live = keep (λ (e : String × Bucket F). not (is_reset e.1 now)) q'.scoped_weekly in
      (expire_status now (record q' { scoped_weekly = live }), changed)

  -- The utilization that gates a request on `weekly_key`.
  unfoldable pub gating_weekly : Quota F → String → Option F
  gating_weekly q weekly_key =
      let shared = q.unified7d.utilization in
      if weekly_key == bucket_7d
      then shared
      else elim (Option.bind (bucket q weekly_key) (λ b. b.utilization)) [
        | none ↦ shared
        | some a ↦ elim shared [ none ↦ some a | some b ↦ some (fl.fmax a b) ]
      ]

  -- A float header.
  unfoldable pub float_header : Map String → String → Option F
  float_header h k = Option.bind (lookup k h) (λ v. fl.parse (trim (codes v)))

  -- A bucket under its pair of headers.
  unfoldable pub read_bucket : Option F → Option ℤ → ℤ → Bucket F → Bucket F
  read_bucket util reset now b = record {
    utilization = or_else util b.utilization;
    seen_at = stamp util now b.seen_at;
    reset_at = or_else reset b.reset_at;
  }

  -- Update from the `anthropic-ratelimit-*` response headers.
  unfoldable pub apply_headers : Map String → ℤ → Quota F → Quota F
  apply_headers h now q =
      let status = lookup "anthropic-ratelimit-unified-status" h in
      record q {
        unified5h =
            read_bucket (float_header h "anthropic-ratelimit-unified-5h-utilization")
              (secs_header h "anthropic-ratelimit-unified-5h-reset") now q.unified5h;
        unified7d =
            read_bucket (float_header h "anthropic-ratelimit-unified-7d-utilization")
              (secs_header h "anthropic-ratelimit-unified-7d-reset") now q.unified7d;
        unified7d_fable =
            read_bucket (float_header h "anthropic-ratelimit-unified-7d_oi-utilization")
              (secs_header h "anthropic-ratelimit-unified-7d_oi-reset") now q.unified7d_fable;
        unified_status = or_else status q.unified_status;
        unified_status_seen_at = stamp status now q.unified_status_seen_at;
        tokens_limit = or_else (int_header h "anthropic-ratelimit-tokens-limit") q.tokens_limit;
        tokens_remaining =
            or_else (int_header h "anthropic-ratelimit-tokens-remaining") q.tokens_remaining;
        requests_limit =
            or_else (int_header h "anthropic-ratelimit-requests-limit") q.requests_limit;
        requests_remaining =
            or_else (int_header h "anthropic-ratelimit-requests-remaining") q.requests_remaining;
        resets_at =
            or_else
              (or_else (lookup "anthropic-ratelimit-tokens-reset" h)
                (lookup "anthropic-ratelimit-requests-reset" h))
              q.resets_at;
      }

  -- Whether both readings name one window.
  unfoldable pub same_window : Bucket F → Bucket F → Bool
  same_window dst src = elim dst.reset_at [
    | none ↦ false
    | some d ↦ elim src.reset_at [ none ↦ false | some s ↦ within s d same_window_slop_ms ]
  ]

  unfoldable pub reads_lower : Bucket F → Bucket F → Bool
  reads_lower dst src = elim dst.utilization [
    | none ↦ false
    | some d ↦ elim src.utilization [ none ↦ false | some s ↦ fl.lt s d ]
  ]

  -- The closure `set` of `apply_usage`.
  unfoldable pub set_bucket : ℤ → Bucket F → Option (Bucket F) → Bucket F
  unfolding same_window reads_lower
  set_bucket now dst none = dst
  set_bucket now dst (some b) = if same_window dst b && reads_lower dst b then dst else record {
    utilization = or_else b.utilization dst.utilization;
    seen_at = stamp b.utilization now dst.seen_at;
    reset_at = b.reset_at;
  }

  -- A family of a payload that lists its scoped caps: one that is missing has no cap.
  unfoldable pub set_listed : ℤ → Bucket F → Option (Bucket F) → Bucket F
  unfolding set_bucket
  set_listed now dst none = no_reading
  set_listed now dst (some b) = set_bucket now dst (some b)

  -- Apply a payload of the usage endpoint.
  unfoldable pub apply_usage : UsagePayload F → ℤ → Quota F → Quota F
  unfolding set_listed
  apply_usage u now q = record q {
    unified5h = set_bucket now q.unified5h u.five_hour;
    unified7d = set_bucket now q.unified7d u.seven_day;
    unified7d_fable =
        if u.scoped_listed
        then set_listed now q.unified7d_fable u.seven_day_fable
        else set_bucket now q.unified7d_fable u.seven_day_fable;
    unified7d_sonnet =
        if u.scoped_listed
        then set_listed now q.unified7d_sonnet u.seven_day_sonnet
        else set_bucket now q.unified7d_sonnet u.seven_day_sonnet;
    scoped_weekly =
        if u.scoped_listed
        then map (λ (e : String × Bucket F). (e.0, record e.1 { seen_at = some now }))
            u.scoped_weekly
        else q.scoped_weekly;
    spend = or_else u.spend q.spend;
  }

  used_fraction : Option ℤ → Option ℤ → Option F
  used_fraction none remaining = none
  used_fraction (some l) none = none
  used_fraction (some l) (some r) =
      if ltb_ℤ (pos 0) l
      then some (fl.sub (fl.decimal 1 0) (fl.div (fl.of_int r) (fl.of_int l)))
      else none

  -- API-key style used fractions, if the headers were present.
  unfoldable pub tokens_used : Quota F → Option F
  unfolding used_fraction
  tokens_used q = used_fraction q.tokens_limit q.tokens_remaining

  unfoldable pub requests_used : Quota F → Option F
  unfolding used_fraction
  requests_used q = used_fraction q.requests_limit q.requests_remaining
