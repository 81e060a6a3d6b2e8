-- ===== src/Fleet/Health/Holds.antt =====
-- src/manager.rs: accounts on hold, as `Fleet::select` sees them.
pub mod Runs
use mathlib.Core.Option
use corrall.Prelude.{
  ℕ, ◌+◌, ◌*◌, ◌^◌, ◌<◌, String, ◌≡◌, ◌≢◌, refl, sym, subst, ◌∙◌, Bool, true, false, not, ◌&&◌,
  ◌||◌, List, [], ◌∷◌, map, Option, none, some, any, all, arith, if◌then◌else◌, ◌==◌, eq_iff,
  and_true, or_left, lt→ltb, or_right,
}
use corrall.Prelude.Int.{ℤ, pos, ltb_ℤ, leb_ℤ, add_i64, scale_i64, wrap_i64, ◌+ℤ◌}
use corrall.Prelude.Bytes.{Bytes}
use corrall.Prelude.Float.{Float}
use corrall.Session.{member}
use corrall.Quota.{clear_expired}
use corrall.Config.{for_bucket}
use corrall.Fleet.{
  Account, Fleet, Provider, Status, Selected, SelectRequest, account_mut, modify_first, has_id,
  is_error, is_throttled,
}
use corrall.Fleet.Upstream.{Platform, upstream_for}
use corrall.Fleet.Eligibility.{
  Reason, other_provider, disabled, no_credential, upstream_refused, error, rate_limited,
  first_some, when, is_none, is_other, is_later, is_soft, unavailable_reason_for, is_available_for,
}
use corrall.Fleet.Cursor.{lift_pause, clear_expired_all}
use corrall.Fleet.Select.{chosen, is_soft_reason, may_serve}
use corrall.Fleet.Selection.{select}
use corrall.Fleet.Selection.Scope.{serves, may_revalidate}
use corrall.Fleet.Selection.Scope.Whole.{select-serves}
use corrall.Fleet.Health.{hold}

-- The end of a hold, while times stay in range.
hold_end :
    (n secs : ℕ)
    → n + secs * 1000 < 2 ^ 63
    → add_i64 (pos n) (scale_i64 (wrap_i64 (pos secs)) 1000) ≡ pos (n + secs * 1000)
unfolding add_i64 scale_i64 wrap_i64 ◌+ℤ◌
hold_end n secs h = ground arith

other : (b c : Bool) → c ≡ false → (b || c) ≡ true → b ≡ true
other b c h h' = ground arith

none_of :
    (m i p s r : Bool)
    → i ≡ false
    → s ≡ false
    → r ≡ false
    → ((m && i) || (p && (m && s))) || r ≡ false
none_of m i p s r h h' h'' = ground arith

module _ {F : Type 0} where
  -- No two accounts have one id.
  abbrev pub distinct_ids : List (Account F) → Bool
  distinct_ids [] = true
  distinct_ids (a ∷ v) = not (any (has_id a.id) v) && distinct_ids v

  -- An account of the id is paused past the time `t`.
  abbrev paused : String → ℤ → Account F → Bool
  paused id t a = not (a.id == id) || is_later a.rate_limited_until t

  none_named :
      (id : String) (t : ℤ) (v : List (Account F))
      → any (has_id id) v ≡ false
      → all (paused id t) v ≡ true
  none_named id t [] h = refl
  none_named id t (a ∷ v) h = ground (arith, none_named id t v)

  modify_first-paused :
      (id : String) (t : ℤ) (h : Account F → Account F) (v : List (Account F))
      → distinct_ids v ≡ true
      → ((a : Account F) → is_later (h a).rate_limited_until t ≡ true)
      → all (paused id t) (modify_first (has_id id) h v) ≡ true
  unfolding modify_first
  modify_first-paused id t h [] distinct until = refl
  modify_first-paused id t h (a ∷ v) distinct until =
      go (a.id == id) refl (modify_first-paused id t h v (ground arith) until)
    where
      go :
          (b : Bool)
          → (a.id == id) ≡ b
          → all (paused id t) (modify_first (has_id id) h v) ≡ true
          → all (paused id t) (if b then h a ∷ v else a ∷ modify_first (has_id id) h v) ≡ true
      go true e rest =
          let same : a.id ≡ id = (eq_iff a.id id).0 e in
          let others : any (has_id id) v ≡ false =
            subst (λ i. any (has_id i) v ≡ false) same (ground arith) in
          let hit = until a in
          let tail = none_named id t v others in
          and_true (paused id t (h a)) (all (paused id t) v) (or_right (not ((h a).id == id)) _ hit)
            tail
      go false e rest =
          let apart : not (a.id == id) ≡ true = rw (e) in
          and_true (paused id t a) (all (paused id t) (modify_first (has_id id) h v))
            (or_left (not (a.id == id)) (is_later a.rate_limited_until t) apart) rest

  lift_pause-paused :
      (id : String) (now t : ℤ) (a : Account F)
      → leb_ℤ now t ≡ true
      → paused id t a ≡ true
      → paused id t (lift_pause now a) ≡ true
  lift_pause-paused id now t a early h = go a.rate_limited_until refl
    where
      lifted : Option ℤ → Account F
      lifted o = elim o [
        | none ↦ a
        | some until ↦
            if leb_ℤ until now
            then record a {
              rate_limited_until = none;
              quota_hold = false;
              status = if is_throttled a.status then Status.active else a.status;
            }
            else a
      ]

      at_end :
          (u : ℤ) (b : Bool)
          → a.rate_limited_until ≡ some u
          → leb_ℤ u now ≡ b
          → paused id t (
              if b
              then record a {
                rate_limited_until = none;
                quota_hold = false;
                status = if is_throttled a.status then Status.active else a.status;
              }
              else a)
            ≡ true
      at_end u true e e' =
          let over : ltb_ℤ t u ≡ false = ground arith in
          let named : not (a.id == id) || ltb_ℤ t u ≡ true =
            subst (λ o. not (a.id == id) || is_later o t ≡ true) e h in
          or_left (not (a.id == id)) false (other (not (a.id == id)) (ltb_ℤ t u) over named)
      at_end u false e e' = h

      go : (o : Option ℤ) → a.rate_limited_until ≡ o → paused id t (lifted o) ≡ true
      go none e = h
      go (some u) e = at_end u (leb_ℤ u now) e refl

module _ {F : Type 0} ⦃fl : Float F⦄ ⦃pf : Platform⦄ where
  clear_expired_all-paused :
      (id : String) (now t : ℤ) (f : Fleet F)
      → leb_ℤ now t ≡ true
      → all (paused id t) f.accounts ≡ true
      → all (paused id t) (clear_expired_all now f).accounts ≡ true
  unfolding clear_expired_all
  clear_expired_all-paused id now t f early h = go f.accounts h
    where
      fresh : Account F → Account F
      fresh a = lift_pause now (record a {
        quota = (clear_expired now pf.family_stale_ms (for_bucket f.threshold) a.quota).0;
      })

      go :
          (v : List (Account F))
          → all (paused id t) v ≡ true
          → all (paused id t) (map fresh v) ≡ true
      go [] h = refl
      go (a ∷ v) h =
          and_true (paused id t (fresh a)) (all (paused id t) (map fresh v))
            (lift_pause-paused id now t
              (record a {
                quota = (clear_expired now pf.family_stale_ms (for_bucket f.threshold) a.quota).0;
              })
              early (ground arith))
            (go v (ground arith))

  -- A pause is no soft reason, nor is what is looked at before it.
  paused-hard :
      (f : Fleet F) (a : Account F) (model advisor : Option Bytes) (provider : Option Provider)
      (t : ℤ)
      → is_later a.rate_limited_until t ≡ true
      → (is_none (unavailable_reason_for f a model advisor provider t) ≡ false)
        × (is_soft_reason (unavailable_reason_for f a model advisor provider t) ≡ false)
  unfolding unavailable_reason_for is_soft
  paused-hard f a model advisor provider t h =
      go (is_other provider a.provider) a.disabled (is_none a.credential)
        (is_none (upstream_for a f.default_upstream)) (is_error a.status)
        (is_later a.rate_limited_until t) h _
    where
      go :
          (b₁ b₂ b₃ b₄ b₅ b₆ : Bool)
          → b₆ ≡ true
          → (rest : List (Option (Reason F)))
          → (is_none (
                first_some (
                  when b₁ other_provider
                  ∷ when b₂ disabled
                  ∷ when b₃ no_credential
                  ∷ when b₄ upstream_refused
                  ∷ when b₅ (error a.error_message)
                  ∷ when b₆ (rate_limited (Option.get_or a.rate_limited_until t))
                  ∷ rest))
              ≡ false)
            × (is_soft_reason (
                  first_some (
                    when b₁ other_provider
                    ∷ when b₂ disabled
                    ∷ when b₃ no_credential
                    ∷ when b₄ upstream_refused
                    ∷ when b₅ (error a.error_message)
                    ∷ when b₆ (rate_limited (Option.get_or a.rate_limited_until t))
                    ∷ rest))
                ≡ false)
      go true b₂ b₃ b₄ b₅ b₆ e rest = (refl, refl)
      go false true b₃ b₄ b₅ b₆ e rest = (refl, refl)
      go false false true b₄ b₅ b₆ e rest = (refl, refl)
      go false false false true b₅ b₆ e rest = (refl, refl)
      go false false false false true b₆ e rest = (refl, refl)
      go false false false false false true e rest = (refl, refl)
      go false false false false false false e rest = absurd (cc e)

  no_server :
      (f : Fleet F) (req : SelectRequest) (t : ℤ) (id : String) (v : List (Account F))
      → all (paused id t) v ≡ true
      → any (λ (a : Account F). a.id == id && (may_serve f req t a || may_revalidate f req t a)) v
        ≡ false
  unfolding is_available_for
  no_server f req t id [] h = refl
  no_server f req t id (a ∷ v) h = go (a.id == id) refl (no_server f req t id v (ground arith))
    where
      go :
          (b : Bool)
          → (a.id == id) ≡ b
          → any
              (λ (x : Account F). x.id == id && (may_serve f req t x || may_revalidate f req t x))
              v
            ≡ false
          → (b && (may_serve f req t a || may_revalidate f req t a))
              || any
                  (λ (x : Account F).
                    x.id == id && (may_serve f req t x || may_revalidate f req t x))
                  v
            ≡ false
      go true e rest =
          let late : is_later a.rate_limited_until t ≡ true = ground arith in
          let (out, hard) = paused-hard f a req.model req.advisor_model req.provider t late in
          none_of (not (member a.id req.exclude)) (is_available_for f a req t) req.allow_probe
            (is_soft_reason (unavailable_reason_for f a req.model req.advisor_model req.provider t))
            _ out hard rest
      go false e rest = rest
