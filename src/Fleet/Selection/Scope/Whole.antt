-- ===== src/Fleet/Selection/Scope/Whole.antt =====
-- src/manager.rs: the probe of the last stage, and `Fleet::select` as a whole.
use corrall.Prelude.{
  String, ◌≡◌, refl, subst, Bool, true, false, not, ◌&&◌, List, [], ◌∷◌, Option, none, some, At,
  here, there, arith, if◌then◌else◌,
}
use corrall.Prelude.Int.{ℤ}
use corrall.Prelude.Float.{Float}
use corrall.Session.{member}
use corrall.Fleet.{Account, Fleet, Selected, SelectRequest, account_mut}
use corrall.Fleet.Upstream.{Platform}
use corrall.Fleet.Eligibility.{unavailable_reason_for}
use corrall.Fleet.Cursor.{clear_expired_all}
use corrall.Fleet.Bookkeeping.{SameFleet, SameFleet-refl, probed-same}
use corrall.Fleet.Select.{
  Selection, chosen, Outcome, serve_id, may_probe, probe_reset, probe_candidate, select_probe,
  probed_lately, is_soft_reason, select_pin,
}
use corrall.Fleet.Selection.{select, select_unpinned, or_exhausted}
use corrall.Fleet.Selection.Scope.Expired.{DropsNoMore, clear_expired_all-DropsNoMore}
use corrall.Fleet.Selection.Scope.{serves, revalidates-serves}
use corrall.Fleet.Selection.Scope.Stages.{
  Serves, Sound, or_next-Sound, serve_id-Sound, unless-Sound, select_route_pin-Sound,
  select_session-Sound, select_current-Sound, select_best-Sound,
}

module _ {F : Type 0} ⦃fl : Float F⦄ ⦃pf : Platform⦄ (f : Fleet F) (req : SelectRequest)
    (now : ℤ) where
  abbrev pub Candidate : Option (ℤ × String) → Type 0
  Candidate none = Unit
  Candidate (some (r, id)) = serves f req now id ≡ true

  may_probe-serves :
      (g : Fleet F) (a : Account F)
      → req.allow_probe ≡ true
      → SameFleet f g
      → At a g.accounts
      → may_probe g req now a ≡ true
      → serves f req now a.id ≡ true
  unfolding may_probe
  may_probe-serves g a allowed same at h = revalidates-serves req now same at (
      parts req.allow_probe (not (member a.id req.exclude))
        (is_soft_reason (unavailable_reason_for g a req.model req.advisor_model req.provider now))
        (not (probed_lately now a.last_probe_at)) allowed h)
    where
      parts : (p q r s : Bool) → p ≡ true → (q && (r && s)) ≡ true → (p && (q && r)) ≡ true
      parts p q r s h h' = ground arith

  probe_candidate-serves :
      (g : Fleet F) (v : List (Account F)) (best : Option (ℤ × String))
      → req.allow_probe ≡ true
      → SameFleet f g
      → Candidate best
      → ((a : Account F) → At a v → At a g.accounts)
      → Candidate (probe_candidate g req now best v)
  unfolding probe_candidate
  probe_candidate-serves g [] best allowed same ok at = ok
  probe_candidate-serves g (a ∷ v) best allowed same ok at =
      probe_candidate-serves g v _ allowed same
        (go (may_probe g req now a) _ (may_probe-serves g a allowed same (at a here)))
        (λ b at'. at b (there at'))
    where
      go :
          (t u : Bool)
          → (t ≡ true → serves f req now a.id ≡ true)
          → Candidate (if t && u then some (probe_reset a req.model, a.id) else best)
      go true true h = h refl
      go true false h = ok
      go false u h = ok

  select_probe-Sound : (g : Fleet F) → SameFleet f g → Sound f req now (select_probe req now g)
  unfolding select_probe
  select_probe-Sound g same = unless-Sound f req now req.allow_probe g _ same (λ allowed.
      go (probe_candidate g req now none g.accounts)
        (probe_candidate-serves g g.accounts none allowed same tt (λ a at. at)))
    where
      go :
          (o : Option (ℤ × String))
          → Candidate o
          → Sound f req now (elim o [
            | none ↦ (g, none)
            | some (reset, id) ↦
                serve_id (account_mut id (λ a. record a { last_probe_at = some now }) g) id
          ])
      go none ok = (same, tt)
      go (some (reset, id)) ok = serve_id-Sound f req now _ id (probed-same id now same) ok

  pub select_unpinned-Sound : Sound f req now (select_unpinned req now f)
  unfolding select_unpinned
  select_unpinned-Sound =
      or_next-Sound f req now _ _ (select_route_pin-Sound f req now f (SameFleet-refl f)) (λ f₁ s₁.
        or_next-Sound f req now _ _ (select_session-Sound f req now f₁ s₁) (λ f₂ s₂.
          or_next-Sound f req now _ _ (select_current-Sound f req now f₂ s₂) (λ f₃ s₃.
            or_next-Sound f req now _ _ (select_best-Sound f req now f₃ s₃) select_probe-Sound)))

module _ {F : Type 0} ⦃fl : Float F⦄ ⦃pf : Platform⦄ where
  or_exhausted-chosen :
      (f : Fleet F) (req : SelectRequest) (now : ℤ) (o : Outcome F) (s : Selected)
      → Sound f req now o
      → (or_exhausted req now o).1 ≡ chosen s
      → serves f req now s.id ≡ true
  or_exhausted-chosen f req now (g, some t) s (same, ok) h =
      subst (λ x. Serves f req now (some x)) h ok
  or_exhausted-chosen f req now (g, none) s (same, ok) h = absurd (cc h)

  -- A request without a pin is sent only with an account that may serve it, or, where the request
  -- allows a probe, with one that quota alone holds back: never with an excluded account, and judged
  -- by the fleet as it is once expired readings are dropped, whatever the stages note down.
  pub select-serves :
      (f : Fleet F) (req : SelectRequest) (now : ℤ) (s : Selected)
      → req.pin ≡ none
      → (select req now f).1 ≡ chosen s
      → serves (clear_expired_all now f) req now s.id ≡ true
  unfolding select
  select-serves f req now s no_pin h = go req.pin no_pin h
    where
      fresh : Fleet F
      fresh = clear_expired_all now f

      go :
          (o : Option String)
          → o ≡ none
          → (elim o as (λ x. Fleet F × Selection F) [
            | some pin ↦ (fresh, select_pin fresh req now pin)
            | none ↦ or_exhausted req now (select_unpinned req now fresh)
          ]).1
            ≡ chosen s
          → serves fresh req now s.id ≡ true
      go none e h =
          or_exhausted-chosen fresh req now (select_unpinned req now fresh) s
            (select_unpinned-Sound fresh req now) h
      go (some pin) e h = absurd (cc e)

  or_exhausted-same :
      (f : Fleet F) (req : SelectRequest) (now : ℤ) (o : Outcome F)
      → Sound f req now o
      → SameFleet f (or_exhausted req now o).0
  or_exhausted-same f req now (g, some t) (same, ok) = same
  or_exhausted-same f req now (g, none) (same, ok) = same

  pub select-SameFleet :
      (f : Fleet F) (req : SelectRequest) (now : ℤ)
      → DropsNoMore now f (clear_expired_all now f)
        × SameFleet (clear_expired_all now f) (select req now f).0
  unfolding select
  select-SameFleet f req now =
      let fresh = clear_expired_all now f in
      (
        clear_expired_all-DropsNoMore now f,
        go req.pin _ (or_exhausted-same fresh req now _ (select_unpinned-Sound fresh req now)),
      )
    where
      go :
          (o : Option String) (unpinned : Fleet F × Selection F)
          → SameFleet (clear_expired_all now f) unpinned.0
          → SameFleet
              (clear_expired_all now f)
              (elim o as (λ x. Fleet F × Selection F) [
                | some pin ↦
                    (clear_expired_all now f, select_pin (clear_expired_all now f) req now pin)
                | none ↦ unpinned
              ]).0
      go none unpinned same = same
      go (some pin) unpinned same = SameFleet-refl (clear_expired_all now f)
