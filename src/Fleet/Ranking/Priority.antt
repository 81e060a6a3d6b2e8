-- ===== src/Fleet/Ranking/Priority.antt =====
-- src/manager.rs: the priority of the account that is tried first.
use corrall.Prelude.{
  ◌≡◌, refl, subst, Bool, true, false, List, [], ◌∷◌, all, arith, if◌then◌else◌, Ordering, and_true,
}
use corrall.Prelude.Int.{ℤ, leb_ℤ, compare_ℤ}
use corrall.Prelude.Float.{Float}
use corrall.Prelude.Sort.{then_by, is_gt, sort_by, leads, sort_by-leads, sort_by-all_of}
use corrall.Session.{stats}
use corrall.Fleet.{Account, Fleet, SelectRequest}
use corrall.Fleet.Upstream.{Platform}
use corrall.Fleet.Ranking.{
  available, ranked_by_default, ranked_available, compare_default, compare_soonest,
  soonest_reset_band, band,
}

-- The order by a first key, whatever comes next.
not_after_first :
    (p q : ℤ) (next : Ordering) → is_gt (then_by (compare_ℤ p q) next) ≡ false → leb_ℤ p q ≡ true
not_after_first p q next h = ground arith

after_first :
    (p q : ℤ) (next : Ordering) → is_gt (then_by (compare_ℤ p q) next) ≡ true → leb_ℤ q p ≡ true
after_first p q next h = ground arith

then_by_assoc : (o p r : Ordering) → then_by (then_by o p) r ≡ then_by o (then_by p r)
then_by_assoc Ordering.lt p r = refl
then_by_assoc Ordering.eq p r = refl
then_by_assoc Ordering.gt p r = refl

leb_ℤ_trans : (p q r : ℤ) → leb_ℤ p q ≡ true → leb_ℤ q r ≡ true → leb_ℤ p r ≡ true
leb_ℤ_trans p q r h h' = ground arith

leb_ℤ_refl : (p : ℤ) → leb_ℤ p p ≡ true
leb_ℤ_refl p = ground arith

module _ {F : Type 0} where
  abbrev pub no_later : Account F → Account F → Bool
  no_later a b = leb_ℤ a.priority b.priority

  leads-all :
      (v : List (Account F)) (best : Account F) (rest : List (Account F))
      → v ≡ best ∷ rest
      → leads no_later v ≡ true
      → all (no_later best) v ≡ true
  leads-all [] best rest e h = refl
  leads-all (a ∷ v) best rest e h =
      let same : a ≡ best = cc e in
      subst (λ (x : Account F). all (no_later x) (a ∷ v) ≡ true) same
        (and_true (no_later a a) (all (no_later a) v) (leb_ℤ_refl a.priority) h)

module _ {F : Type 0} ⦃fl : Float F⦄ ⦃pf : Platform⦄ where
  by_default-leads :
      (g : Fleet F) (req : SelectRequest) (now : ℤ) (v : List (Account F))
      → leads no_later (sort_by (compare_default g (stats now g.sessions) req.model) v) ≡ true
  by_default-leads g req now v =
      sort_by-leads _ no_later v (λ a b h. not_after_first a.priority b.priority _ h)
        (λ a b h. after_first a.priority b.priority _ h)
        (λ a b c h h'. leb_ℤ_trans a.priority b.priority c.priority h h')

  by_soonest-leads :
      (g : Fleet F) (req : SelectRequest) (now : ℤ) (pool v : List (Account F))
      → leads no_later (sort_by (compare_soonest g (stats now g.sessions) req.model now pool) v)
        ≡ true
  unfolding soonest_reset_band
  by_soonest-leads g req now pool v =
      sort_by-leads _ no_later v
        (λ a b h. not_after_first a.priority b.priority _ (rw (then_by_assoc) at h))
        (λ a b h. after_first a.priority b.priority _ (rw (then_by_assoc) at h))
        (λ a b c h h'. leb_ℤ_trans a.priority b.priority c.priority h h')

  -- Without expiry routing, whichever of the other two orders is configured, the account at the head
  -- of ranked_available has a priority number that is the least of all available accounts.
  pub ranked-priority :
      (g : Fleet F) (req : SelectRequest) (now : ℤ) (best : Account F) (rest : List (Account F))
      → g.expiry.enabled ≡ false
      → ranked_available g req now ≡ best ∷ rest
      → all (no_later best) (available g req now) ≡ true
  unfolding ranked_available ranked_by_default
  ranked-priority g req now best rest plain h = go g.expiry.enabled g.soonest_reset plain h
    where
      go :
          (e s : Bool)
          → e ≡ false
          → (if s
              then sort_by
                  (compare_soonest g (stats now g.sessions) req.model now (
                    if e
                    then band g req.model now (available g req now)
                    else sort_by
                        (compare_default g (stats now g.sessions) req.model)
                        (available g req now)))
                  (if e
                    then band g req.model now (available g req now)
                    else sort_by
                        (compare_default g (stats now g.sessions) req.model)
                        (available g req now))
              else if e
              then band g req.model now (available g req now)
              else sort_by
                  (compare_default g (stats now g.sessions) req.model)
                  (available g req now))
            ≡ best ∷ rest
          → all (no_later best) (available g req now) ≡ true
      go true s plain h = absurd (cc plain)
      go false false plain h =
          sort_by-all_of _ (no_later best) _
            (leads-all _ best rest h (by_default-leads g req now (available g req now)))
      go false true plain h = sort_by-all_of _ (no_later best) _ (
          sort_by-all_of _ (no_later best) _
            (leads-all _ best rest h (by_soonest-leads g req now _ _)))
