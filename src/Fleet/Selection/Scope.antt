-- ===== src/Fleet/Selection/Scope.antt =====
-- src/manager.rs: whom `Fleet::select` may choose, stage by stage.
use mathlib.Core.Option
use corrall.Prelude.{
  String, ◌≡◌, refl, sym, subst, ap, ◌∙◌, Bool, true, false, not, ◌&&◌, ◌||◌, List, [], ◌∷◌, Option,
  none, some, any, all, keep, find, At, here, there, arith, if◌then◌else◌, ◌==◌, eq_refl, eq_iff,
  or_left, or_right,
}
use corrall.Prelude.Int.{ℤ}
use corrall.Prelude.Bytes.{Bytes}
use corrall.Prelude.Float.{Float}
use corrall.Prelude.Sort.{sort_by, sort_by-all}
use corrall.Session.{member, stats}
use corrall.Fleet.{Account, Fleet, Selected, SelectRequest, account, has_id}
use corrall.Fleet.Upstream.{Platform, upstream_for}
use corrall.Fleet.Eligibility.{unavailable_reason_for, is_available_for}
use corrall.Fleet.Ranking.{
  band, band_above, available, ranked_by_default, ranked_available, compare_default,
  compare_soonest,
}
use corrall.Fleet.Bookkeeping.{
  SameAccount, SameAccounts, SameFleet, same_fleet, SameFleet-refl, At-same, id-same,
  unavailable-same, available-same,
}
use corrall.Fleet.Select.{
  Selection, chosen, Outcome, or_next, snapshot, serve, serve_id, with_best, first, may_serve,
  is_soft_reason,
}
pub mod Stages
pub mod Expired
pub mod Whole

named : {i j : String} (t : Bool) → i ≡ j → t ≡ true → ((i == j) && t) ≡ true
named {i} {j} t e h = rw (e, eq_refl j, h)

module _ {F : Type 0} ⦃fl : Float F⦄ ⦃pf : Platform⦄ where
  -- Held back by quota alone, while the request may probe.
  abbrev pub may_revalidate : Fleet F → SelectRequest → ℤ → Account F → Bool
  may_revalidate f req now a =
      req.allow_probe
      && (not (member a.id req.exclude)
          && is_soft_reason
              (unavailable_reason_for f a req.model req.advisor_model req.provider now))

  -- An account of this id may serve, or may be probed with the request.
  abbrev pub serves : Fleet F → SelectRequest → ℤ → String → Bool
  serves f req now id =
      any (λ (a : Account F). a.id == id && (may_serve f req now a || may_revalidate f req now a))
        f.accounts

  any-At :
      (p : Account F → Bool) {a : Account F} {v : List (Account F)}
      → At a v
      → p a ≡ true
      → any p v ≡ true
  any-At p here h = ground (arith, h)
  any-At p (there at) h = ground (arith, any-At p at h)

  -- The notes that have been taken since do not matter.
  pub may_serve-serves :
      (req : SelectRequest) (now : ℤ) {f g h : Fleet F} {b : Account F}
      → SameFleet f g
      → SameFleet f h
      → At b h.accounts
      → may_serve g req now b ≡ true
      → serves f req now b.id ≡ true
  may_serve-serves req now {f} {g} {h} {b} sg (same_fleet accounts current es) at ok =
      let (a, at', sa) = At-same es at in
      let same_id = id-same sa in
      let same_test = available-same req now sg sa in
      let ok' : may_serve f req now a ≡ true = rw (same_id, sym same_test) ok in
      any-At _ at' (named _ same_id (or_left _ _ ok'))

  pub revalidates-serves :
      (req : SelectRequest) (now : ℤ) {f g : Fleet F} {b : Account F}
      → SameFleet f g
      → At b g.accounts
      → may_revalidate g req now b ≡ true
      → serves f req now b.id ≡ true
  revalidates-serves req now {f} {g} {b} (same_fleet accounts current es) at ok =
      let sf : SameFleet f (record f { accounts = accounts; current = current }) =
        same_fleet accounts current es in
      let (a, at', sa) = At-same es at in
      let same_id = id-same sa in
      let same_reason = unavailable-same req.model req.advisor_model req.provider now sf sa in
      let ok' : may_revalidate f req now a ≡ true = rw (same_id, sym same_reason) ok in
      any-At _ at' (named _ same_id (or_right _ _ ok'))

  keep-all :
      (p q : Account F → Bool) (v : List (Account F)) → all q v ≡ true → all q (keep p v) ≡ true
  keep-all p q [] h = refl
  keep-all p q (a ∷ v) h = ground (arith, keep-all p q v)

  keep-all_of :
      (p q : Account F → Bool) (v : List (Account F))
      → ((a : Account F) → At a v → p a ≡ true → q a ≡ true)
      → all q (keep p v) ≡ true
  keep-all_of p q [] h = refl
  keep-all_of p q (a ∷ v) h = ground (arith, h a here, keep-all_of p q v (λ b at. h b (there at)))

  band_above-all :
      (q : Account F → Bool) (f : Fleet F) (model : Option Bytes) (now top : ℤ) (max : F)
      (v : List (Account F))
      → all q v ≡ true
      → all q (band_above f model now top max v) ≡ true
  unfolding band_above
  band_above-all q f model now top max v h = sort_by-all _ q _ (keep-all _ q v h)

  band-all :
      (q : Account F → Bool) (f : Fleet F) (model : Option Bytes) (now : ℤ) (v : List (Account F))
      → all q v ≡ true
      → all q (band f model now v) ≡ true
  unfolding band
  band-all q f model now [] h = refl
  band-all q f model now (a ∷ []) h = h
  band-all q f model now (a ∷ b ∷ v) h =
      pick f.expiry.enabled _ _ (a ∷ b ∷ v) h
        (λ max. band_above-all q f model now _ max (a ∷ b ∷ v) h)
    where
      pick :
          (t : Bool) (o : Option F) (above : F → List (Account F)) (whole : List (Account F))
          → all q whole ≡ true
          → ((max : F) → all q (above max) ≡ true)
          → all q (if t then elim o [ none ↦ whole | some max ↦ above max ] else whole) ≡ true
      pick true none above whole h h' = h
      pick true (some max) above whole h h' = h' max
      pick false o above whole h h' = h

  -- Every account that is ranked may serve.
  pub ranked-serves :
      (req : SelectRequest) (now : ℤ) {f g : Fleet F}
      → SameFleet f g
      → all (λ (a : Account F). serves f req now a.id) (ranked_available g req now) ≡ true
  unfolding ranked_available ranked_by_default available
  ranked-serves req now {f} {g} sg =
      sorted g.soonest_reset _ (by_default g.expiry.enabled all_serve)
    where
      q : Account F → Bool
      q a = serves f req now a.id

      all_serve : all q (available g req now) ≡ true
      all_serve = keep-all_of _ q g.accounts (λ a at ok. may_serve-serves req now sg sg at ok)

      by_default :
          (t : Bool)
          → all q (available g req now) ≡ true
          → all q (
              if t
              then band g req.model now (available g req now)
              else sort_by
                  (compare_default g (stats now g.sessions) req.model)
                  (available g req now))
            ≡ true
      by_default true h = band-all q g req.model now _ h
      by_default false h = sort_by-all _ q _ h

      sorted :
          (t : Bool) (v : List (Account F))
          → all q v ≡ true
          → all q (
              if t then sort_by (compare_soonest g (stats now g.sessions) req.model now v) v else v)
            ≡ true
      sorted true v h = sort_by-all _ q _ h
      sorted false v h = h
