-- ===== src/Fleet/Selection/Scope/Expired.antt =====
-- src/manager.rs: what a selection drops before it looks at the accounts (`clear_expired_all`).
use corrall.Prelude.{
  ◌≡◌, refl, Bool, true, false, List, [], ◌∷◌, map, Option, none, some, if◌then◌else◌,
}
use corrall.Prelude.Int.{ℤ, leb_ℤ}
use corrall.Prelude.Float.{Float}
use corrall.Config.{for_bucket}
use corrall.Quota.{Quota, clear_expired}
use corrall.Quota.Expiry.{DropsExpired, clear_expired-DropsExpired}
use corrall.Fleet.{Account, Fleet, Status, is_throttled}
use corrall.Fleet.Upstream.{Platform}
use corrall.Fleet.Cursor.{lift_pause, clear_expired_all}

abbrev is_over : ℤ → Option ℤ → Bool
is_over now none = false
is_over now (some until) = leb_ℤ until now

module _ {F : Type 0} ⦃fl : Float F⦄ ⦃pf : Platform⦄ (now : ℤ) (f : Fleet F) where
  -- Two states of an account that differ in expired readings, and in a pause that is over.
  pub data DropsOver (a : Account F) : Account F → Type 0 where
    as_paused :
        {q : Quota F}
        → is_over now a.rate_limited_until ≡ false
        → DropsExpired now pf.family_stale_ms (for_bucket f.threshold) a.quota q
        → DropsOver a (record a { quota = q })
    resumed :
        {q : Quota F}
        → is_over now a.rate_limited_until ≡ true
        → DropsExpired now pf.family_stale_ms (for_bucket f.threshold) a.quota q
        → DropsOver a (record a {
          quota = q;
          rate_limited_until = none;
          quota_hold = false;
          status = if is_throttled a.status then Status.active else a.status;
        })

  pub data AllDropOver : List (Account F) → List (Account F) → Type 0 where
    nil : AllDropOver [] []
    cons :
        {a b : Account F} {xs ys : List (Account F)}
        → DropsOver a b
        → AllDropOver xs ys
        → AllDropOver (a ∷ xs) (b ∷ ys)

  -- The other fields of the fleet are as they were.
  pub data DropsNoMore : Fleet F → Type 0 where
    drops_no_more :
        {accounts : List (Account F)}
        → AllDropOver f.accounts accounts
        → DropsNoMore (record f { accounts = accounts })

  abbrev refreshed : Account F → Account F
  refreshed a = lift_pause now (record a {
    quota = (clear_expired now pf.family_stale_ms (for_bucket f.threshold) a.quota).0;
  })

  refreshed-DropsOver : (a : Account F) → DropsOver a (refreshed a)
  refreshed-DropsOver a =
      paused a.rate_limited_until refl
        (clear_expired-DropsExpired now pf.family_stale_ms (for_bucket f.threshold) a.quota)
    where
      q : Quota F
      q = (clear_expired now pf.family_stale_ms (for_bucket f.threshold) a.quota).0

      ended :
          (until : ℤ) (t : Bool)
          → a.rate_limited_until ≡ some until
          → leb_ℤ until now ≡ t
          → DropsExpired now pf.family_stale_ms (for_bucket f.threshold) a.quota q
          → DropsOver a (
              if t
              then record a {
                quota = q;
                rate_limited_until = none;
                quota_hold = false;
                status = if is_throttled a.status then Status.active else a.status;
              }
              else record a { quota = q })
      ended until true e over d = resumed (rw e over) d
      ended until false e over d = as_paused (rw e over) d

      paused :
          (o : Option ℤ)
          → a.rate_limited_until ≡ o
          → DropsExpired now pf.family_stale_ms (for_bucket f.threshold) a.quota q
          → DropsOver a (elim o as (λ _. Account F) [
            | none ↦ record a { quota = q }
            | some until ↦
                if leb_ℤ until now
                then record a {
                  quota = q;
                  rate_limited_until = none;
                  quota_hold = false;
                  status = if is_throttled a.status then Status.active else a.status;
                }
                else record a { quota = q }
          ])
      paused none e d = as_paused (rw e refl) d
      paused (some until) e d = ended until (leb_ℤ until now) e refl d

  all_refreshed : (v : List (Account F)) → AllDropOver v (map refreshed v)
  all_refreshed [] = nil
  all_refreshed (a ∷ v) = cons (refreshed-DropsOver a) (all_refreshed v)

  pub clear_expired_all-DropsNoMore : DropsNoMore (clear_expired_all now f)
  unfolding clear_expired_all
  clear_expired_all-DropsNoMore = drops_no_more (all_refreshed f.accounts)
