-- ===== src/Quota/Expiry.antt =====
-- `Quota::clear_expired` of src/quota.rs.
use corrall.Prelude.{
  String, ◌≡◌, refl, Bool, true, false, not, ◌||◌, [], ◌∷◌, none, some, keep, all, if◌then◌else◌,
  arith,
}
use corrall.Prelude.Int.{ℤ, older}
use corrall.Prelude.Float.{Float}
use corrall.Prelude.Maps.{Map}
use corrall.Model.{bucket_5h, bucket_7d, bucket_7d_fable, bucket_7d_sonnet}
use corrall.Quota.{
  Bucket, Quota, no_reading, is_reset, is_spent_stale, clear_expired, expire_status, status_ttl_ms,
  reset_step, stale_step,
}

module _ {F : Type 0} where
  -- No entry of the table is past its reset.
  pub all_live : ℤ → Map (Bucket F) → Bool
  all_live now m = all (λ (e : String × Bucket F). not (is_reset e.1 now)) m

  -- The status was seen within the hour, or never.
  pub status_fresh : ℤ → Quota F → Bool
  status_fresh now q = elim q.unified_status_seen_at [
    | none ↦ true
    | some seen ↦ not (older now seen status_ttl_ms)
  ]

  keep-all_live :
      (now : ℤ) (m : Map (Bucket F))
      → all_live now (keep (λ (e : String × Bucket F). not (is_reset e.1 now)) m) ≡ true
  unfolding all_live
  keep-all_live now [] = refl
  keep-all_live now (e ∷ m) = ground (arith, keep-all_live now m)

  keep_of_all_live :
      (now : ℤ) (m : Map (Bucket F))
      → all_live now m ≡ true
      → keep (λ (e : String × Bucket F). not (is_reset e.1 now)) m ≡ m
  unfolding all_live
  keep_of_all_live now [] h = refl
  keep_of_all_live now (e ∷ m) h = ground (arith, keep_of_all_live now m)

module _ {F : Type 0} ⦃fl : Float F⦄ (now : ℤ) (stale : ℤ) (th : String → F) where
  -- What no reading of a quota may be after the sweep.
  pub record IsFresh (q : Quota F) : Type 0 where
    pub live_5h : is_reset q.unified5h now ≡ false
    pub live_7d : is_reset q.unified7d now ≡ false
    pub live_fable : is_reset q.unified7d_fable now ≡ false
    pub live_sonnet : is_reset q.unified7d_sonnet now ≡ false
    pub fable_valid : is_spent_stale now stale (th bucket_7d_fable) q.unified7d_fable ≡ false
    pub sonnet_valid : is_spent_stale now stale (th bucket_7d_sonnet) q.unified7d_sonnet ≡ false
    pub live_scoped : all_live now q.scoped_weekly ≡ true
    pub fresh_status : status_fresh now q ≡ true

  -- A bucket after the first loop; `unspent` adds the second.
  window : Bucket F → Bucket F
  window b = if is_reset b now then no_reading else b

  window-live : (b : Bucket F) → is_reset (window b) now ≡ false
  unfolding window is_reset
  window-live b = ground arith

  -- What each round does to its bucket, and to the flag.
  reset_5h :
      (s : Quota F × Bool)
      → reset_step now s bucket_5h
        ≡ (record s.0 { unified5h = window s.0.unified5h }, is_reset s.0.unified5h now || s.1)
  unfolding reset_step window
  reset_5h s = ground arith

  reset_7d :
      (s : Quota F × Bool)
      → reset_step now s bucket_7d
        ≡ (record s.0 { unified7d = window s.0.unified7d }, is_reset s.0.unified7d now || s.1)
  unfolding reset_step window
  reset_7d s = ground arith

  reset_fable :
      (s : Quota F × Bool)
      → reset_step now s bucket_7d_fable ≡ (
        record s.0 { unified7d_fable = window s.0.unified7d_fable },
        is_reset s.0.unified7d_fable now || s.1,
      )
  unfolding reset_step window
  reset_fable s = ground arith

  reset_sonnet :
      (s : Quota F × Bool)
      → reset_step now s bucket_7d_sonnet ≡ (
        record s.0 { unified7d_sonnet = window s.0.unified7d_sonnet },
        is_reset s.0.unified7d_sonnet now || s.1,
      )
  unfolding reset_step window
  reset_sonnet s = ground arith

  unspent : F → Bucket F → Bucket F
  unspent t b = if is_spent_stale now stale t b then no_reading else b

  stale_fable :
      (s : Quota F × Bool)
      → stale_step now stale th s bucket_7d_fable ≡ (
        record s.0 { unified7d_fable = unspent (th bucket_7d_fable) s.0.unified7d_fable },
        is_spent_stale now stale (th bucket_7d_fable) s.0.unified7d_fable || s.1,
      )
  unfolding stale_step unspent
  stale_fable s = ground arith

  stale_sonnet :
      (s : Quota F × Bool)
      → stale_step now stale th s bucket_7d_sonnet ≡ (
        record s.0 { unified7d_sonnet = unspent (th bucket_7d_sonnet) s.0.unified7d_sonnet },
        is_spent_stale now stale (th bucket_7d_sonnet) s.0.unified7d_sonnet || s.1,
      )
  unfolding stale_step unspent
  stale_sonnet s = ground arith

  ruleset rounds = (reset_5h, reset_7d, reset_fable, reset_sonnet, stale_fable, stale_sonnet)

  swept : Quota F → Quota F
  unfolding unspent
  swept q = record q {
    unified5h = window q.unified5h;
    unified7d = window q.unified7d;
    unified7d_fable = unspent (th bucket_7d_fable) (window q.unified7d_fable);
    unified7d_sonnet = unspent (th bucket_7d_sonnet) (window q.unified7d_sonnet);
    scoped_weekly = keep (λ (e : String × Bucket F). not (is_reset e.1 now)) q.scoped_weekly;
  }

  clear_expired-eq :
      (q : Quota F)
      → clear_expired now stale th q ≡ (
        expire_status now (swept q),
        is_spent_stale now stale (th bucket_7d_sonnet) (window q.unified7d_sonnet)
            || (is_spent_stale now stale (th bucket_7d_fable) (window q.unified7d_fable)
                || (is_reset q.unified7d_sonnet now
                    || (is_reset q.unified7d_fable now
                        || (is_reset q.unified7d now || (is_reset q.unified5h now || false))))),
      )
  unfolding clear_expired swept
  clear_expired-eq q = simp rounds

  unspent-live :
      (t : F) (b : Bucket F) → is_reset b now ≡ false → is_reset (unspent t b) now ≡ false
  unfolding unspent is_reset
  unspent-live t b h = ground arith

  unspent-valid : (t : F) (b : Bucket F) → is_spent_stale now stale t (unspent t b) ≡ false
  unfolding unspent is_spent_stale
  unspent-valid t b = ground arith

  swept-scoped : (q : Quota F) → all_live now (swept q).scoped_weekly ≡ true
  unfolding swept
  swept-scoped q = keep-all_live now q.scoped_weekly

  -- After the sweep nothing is past its reset, no family reading is both spent and stale, and no
  -- status is older than an hour.
  pub clear_expired-IsFresh : (q : Quota F) → IsFresh (clear_expired now stale th q).0
  unfolding expire_status status_fresh
  clear_expired-IsFresh q = rw (clear_expired-eq q) (
      unfold swept in
      ground (
        arith,
        window-live q.unified5h,
        window-live q.unified7d,
        unspent-live (th bucket_7d_fable) (window q.unified7d_fable),
        unspent-live (th bucket_7d_sonnet) (window q.unified7d_sonnet),
        window-live q.unified7d_fable,
        window-live q.unified7d_sonnet,
        unspent-valid (th bucket_7d_fable) (window q.unified7d_fable),
        unspent-valid (th bucket_7d_sonnet) (window q.unified7d_sonnet),
        keep-all_live now q.scoped_weekly,
      ))

  -- A quota in that state is left as it is, and no change is reported.
  clear_expired_of_IsFresh : (q : Quota F) → IsFresh q → clear_expired now stale th q ≡ (q, false)
  unfolding expire_status status_fresh swept window unspent
  clear_expired_of_IsFresh q v =
      rw (clear_expired-eq q) (ground (arith, keep_of_all_live now q.scoped_weekly))

  -- The two quotas agree but for readings whose time has come: a window past its reset, a spent family
  -- reading that is stale, a status older than an hour.
  pub record DropsExpired (q r : Quota F) : Type 0 where
    pub kept_5h : if is_reset q.unified5h now then Unit else (r.unified5h ≡ q.unified5h)
    pub kept_7d : if is_reset q.unified7d now then Unit else (r.unified7d ≡ q.unified7d)
    pub kept_fable :
        if is_reset q.unified7d_fable now
          || is_spent_stale now stale (th bucket_7d_fable) q.unified7d_fable
        then Unit
        else (r.unified7d_fable ≡ q.unified7d_fable)
    pub kept_sonnet :
        if is_reset q.unified7d_sonnet now
          || is_spent_stale now stale (th bucket_7d_sonnet) q.unified7d_sonnet
        then Unit
        else (r.unified7d_sonnet ≡ q.unified7d_sonnet)
    pub kept_scoped :
        r.scoped_weekly ≡ keep (λ (e : String × Bucket F). not (is_reset e.1 now)) q.scoped_weekly
    pub kept_status : if status_fresh now q then (r.unified_status ≡ q.unified_status) else Unit
    pub same_rest :
        record r {
          unified5h = q.unified5h;
          unified7d = q.unified7d;
          unified7d_fable = q.unified7d_fable;
          unified7d_sonnet = q.unified7d_sonnet;
          scoped_weekly = q.scoped_weekly;
          unified_status = q.unified_status;
          unified_status_seen_at = q.unified_status_seen_at;
        }
        ≡ q

  kept_window : (b : Bucket F) → if is_reset b now then Unit else (window b ≡ b)
  unfolding window
  kept_window b = go (is_reset b now)
    where
      go : (t : Bool) → if t then Unit else ((if t then no_reading else b) ≡ b)
      go true = tt
      go false = refl

  kept_family :
      (t : F) (b : Bucket F)
      → if is_reset b now || is_spent_stale now stale t b then Unit else (unspent t (window b) ≡ b)
  unfolding window unspent
  kept_family t b = go (is_reset b now) (is_spent_stale now stale t b) refl
    where
      go :
          (r s : Bool)
          → is_spent_stale now stale t b ≡ s
          → if r || s then Unit else (unspent t (if r then no_reading else b) ≡ b)
      go true s e = tt
      go false true e = tt
      go false false e = rw e refl

  -- The status is dropped, or kept where it is fresh.
  expire_status-DropsExpired :
      (q r : Quota F)
      → DropsExpired q r
      → r.unified_status_seen_at ≡ q.unified_status_seen_at
      → DropsExpired q (expire_status now r)
  unfolding expire_status status_fresh
  expire_status-DropsExpired q r d e = ground (arith, e, d)

  pub clear_expired-DropsExpired : (q : Quota F) → DropsExpired q (clear_expired now stale th q).0
  unfolding swept
  clear_expired-DropsExpired q = rw (clear_expired-eq q) (
      expire_status-DropsExpired q (swept q)
        (record {
          kept_5h = kept_window q.unified5h;
          kept_7d = kept_window q.unified7d;
          kept_fable = kept_family (th bucket_7d_fable) q.unified7d_fable;
          kept_sonnet = kept_family (th bucket_7d_sonnet) q.unified7d_sonnet;
          kept_scoped = refl;
          kept_status = unchanged (status_fresh now q);
          same_rest = refl;
        })
        refl)
    where
      unchanged : (t : Bool) → if t then ((swept q).unified_status ≡ q.unified_status) else Unit
      unchanged true = refl
      unchanged false = tt
