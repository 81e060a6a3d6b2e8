-- ===== src/Fleet/Selection/Exhausted.antt =====
-- src/manager.rs: the wait that an exhausted fleet asks for.
use corrall.Prelude.{
  ℕ, ◌≤◌, ◌≡◌, refl, Bool, true, false, Option, none, some, any, arith, if◌then◌else◌, List, [],
  ◌∷◌, ap, sym, ◌&&◌,
}
use corrall.Prelude.Int.{ℤ, sub_i64, div_i64}
use corrall.Prelude.Float.{Float}
use corrall.Fleet.{Account, Fleet, SelectRequest}
use corrall.Fleet.Upstream.{Platform}
use corrall.Fleet.Selection.{
  clamp_secs, wait_secs, bound_by_quota, soonest_recovery, exhausted_info, held_back, in_scope,
}
use corrall.Fleet.Eligibility.{
  Reason, other_provider, disabled, no_credential, upstream_refused, error, rate_limited,
  entitlement, route, route_advisor, capped, advisor_capped, quota, quota_advisor,
  unavailable_reason, unavailable_key,
}

clamp_secs-bounds : (s : ℤ) → (5 ≤ clamp_secs s) × (clamp_secs s ≤ 3600)
clamp_secs-bounds s = ground arith

wait_secs-bounds : (now : ℤ) (o : Option ℤ) → (5 ≤ wait_secs now o) × (wait_secs now o ≤ 3600)
wait_secs-bounds now none = ground arith
wait_secs-bounds now (some s) = clamp_secs-bounds (div_i64 (sub_i64 s now) 1000)

any_alike {ℓ} :
    {A : Type ℓ} (p q : A → Bool) (xs : List A) → ((x : A) → p x ≡ q x) → any p xs ≡ any q xs
any_alike p q [] h = refl
any_alike p q (x ∷ xs) h = rw (h x, any_alike p q xs h) refl

module _ {F : Type 0} where
  -- A rate limit, a cap or a threshold: what time lifts.
  abbrev pub lifts_in_time : Option (Reason F) → Bool
  lifts_in_time none = false
  lifts_in_time (some (rate_limited until)) = true
  lifts_in_time (some (capped b)) = true
  lifts_in_time (some (advisor_capped b)) = true
  lifts_in_time (some (quota n)) = true
  lifts_in_time (some (quota_advisor n)) = true
  lifts_in_time (some _) = false

  held_back-lifts : (o : Option (Reason F)) → held_back o ≡ lifts_in_time o
  unfolding held_back unavailable_key
  held_back-lifts none = refl
  held_back-lifts (some other_provider) = refl
  held_back-lifts (some disabled) = refl
  held_back-lifts (some no_credential) = refl
  held_back-lifts (some upstream_refused) = refl
  held_back-lifts (some (error msg)) = refl
  held_back-lifts (some (rate_limited until)) = refl
  held_back-lifts (some entitlement) = refl
  held_back-lifts (some route) = refl
  held_back-lifts (some route_advisor) = refl
  held_back-lifts (some (capped b)) = refl
  held_back-lifts (some (advisor_capped b)) = refl
  held_back-lifts (some (quota n)) = refl
  held_back-lifts (some (quota_advisor n)) = refl

module _ {F : Type 0} ⦃fl : Float F⦄ ⦃pf : Platform⦄ where
  -- The account is of the wanted provider, and what keeps it from serving is lifted in time.
  abbrev pub is_waited_for : Fleet F → SelectRequest → ℤ → Account F → Bool
  is_waited_for f req now a =
      in_scope req a && lifts_in_time (unavailable_reason f a req.model req.advisor_model now)

  -- A wait of five seconds to an hour where there is an account to wait for, and none where none is.
  abbrev pub RetriesWell : Fleet F → SelectRequest → ℤ → Option ℕ → Type 0
  RetriesWell f req now none = any (is_waited_for f req now) f.accounts ≡ false
  RetriesWell f req now (some n) =
      (any (is_waited_for f req now) f.accounts ≡ true) × (5 ≤ n) × (n ≤ 3600)

  bound-waited :
      (f : Fleet F) (req : SelectRequest) (now : ℤ) (a : Account F)
      → bound_by_quota f req now a ≡ is_waited_for f req now a
  unfolding bound_by_quota
  bound-waited f req now a =
      ap (λ t. in_scope req a && t)
        (held_back-lifts (unavailable_reason f a req.model req.advisor_model now))

  -- An exhausted fleet asks for a wait exactly where an account of the wanted provider is kept from
  -- serving by a rate limit, a cap or a threshold (an account that could serve and was merely tried,
  -- or that another reason bars, does not count), and the wait is between five seconds and an hour.
  pub exhausted_info-RetriesWell :
      (f : Fleet F) (req : SelectRequest) (now : ℤ)
      → RetriesWell f req now (exhausted_info f req now).0
  unfolding exhausted_info
  exhausted_info-RetriesWell f req now =
      go (any (bound_by_quota f req now) f.accounts)
        (sym (any_alike _ _ f.accounts (bound-waited f req now))) _
        (wait_secs-bounds now (soonest_recovery f req now none f.accounts))
    where
      go :
          (t : Bool)
          → any (is_waited_for f req now) f.accounts ≡ t
          → (n : ℕ) → (5 ≤ n) × (n ≤ 3600)
          → RetriesWell f req now (if t then some n else none)
      go true e n (low, high) = (e, low, high)
      go false e n bounds = e
