-- ===== src/Fleet/Selection/Complete/Idle.antt =====
-- src/manager.rs: `Selection::Exhausted`, and the stage of the best account.
use mathlib.Core.Option
use corrall.Prelude.{
  ℕ, String, ◌≡◌, ◌≢◌, refl, sym, subst, ap, ◌∙◌, Bool, true, false, not, ◌&&◌, ◌||◌, List, [], ◌∷◌,
  Option, none, some, all, At, arith, if◌then◌else◌, ◌==◌, eq_iff, eq_refl, and_true,
}
use corrall.Prelude.Int.{ℤ}
use corrall.Prelude.Float.{Float}
use corrall.Prelude.Sort.{sort_by}
use corrall.Session.{member, stats}
use corrall.Fleet.{Account, Fleet, Selected, SelectRequest, account, has_id}
use corrall.Fleet.Upstream.{Platform}
use corrall.Fleet.Eligibility.{Reason, is_available_for, unavailable_reason_for}
use corrall.Fleet.Ranking.{
  available, ranked_by_default, ranked_available, compare_default, compare_soonest, band,
}
use corrall.Fleet.Cursor.{clear_expired_all}
use corrall.Fleet.Bookkeeping.{
  SameAccounts, nil, cons, SameFleet, same_fleet, SameFleet-refl, At-same, same-At, id-same,
  available-same, set_current-same, note_baseline-same,
}
use corrall.Fleet.Health.Holds.{distinct_ids}
use corrall.Fleet.Select.{
  Selection, chosen, exhausted, is_soft_reason, Outcome, or_next, snapshot, serve, serve_id, first,
  may_serve, move_to, select_best, select_probe, select_route_pin, select_session, select_current,
  select_pin,
}
use corrall.Fleet.Selection.{select, select_unpinned, or_exhausted}
use corrall.Fleet.Selection.Scope.{serves, ranked-serves}
use corrall.Fleet.Selection.Scope.Stages.{
  account-At, Serves, Sound, select_route_pin-Sound, select_session-Sound, select_current-Sound,
}
use corrall.Fleet.Selection.Scope.Whole.{select_unpinned-Sound}
use corrall.Fleet.Selection.Complete.{
  any-At_of, At-unique, find-some, sort_by-empty, keep-empty, snapshot-some,
}

-- The request, without a probe: what may serve it is the same.
abbrev unprobed : SelectRequest → SelectRequest
unprobed req = record req { allow_probe = false }

parts : (i m a s : Bool) → (i && ((m && a) || (false && (m && s)))) ≡ true → (i ≡ true) × (a ≡ true)
parts i m a s h = ground arith

and_same : (x x' y y' : Bool) → x ≡ x' → y ≡ y' → (x && y) ≡ (x' && y')
and_same x x' y y' e e' = rw (e, e') refl

module _ {F : Type 0} ⦃fl : Float F⦄ ⦃pf : Platform⦄ where
  server_of :
      (f : Fleet F) (req : SelectRequest) (now : ℤ) (id : String)
      → serves f (unprobed req) now id ≡ true
      → (a : Account F) × (At a f.accounts
          × (a.id ≡ id)
          × (is_available_for f a (unprobed req) now ≡ true))
  server_of f req now id h =
      let (a, found) = any-At_of _ f.accounts h in
      let (named, ok) =
        parts (a.id == id) (not (member a.id req.exclude)) (is_available_for f a (unprobed req) now)
          (is_soft_reason (unavailable_reason_for f a req.model req.advisor_model req.provider now))
          found.1 in
      (a, (found.0, (eq_iff a.id id).0 named, ok))

  -- An account that may serve is served, whatever has been noted since.
  serve_id_is :
      (g : Fleet F) (id : String) (b : Account F) (s : Selected)
      → account g id ≡ some b
      → snapshot g b ≡ some s
      → (serve_id g id).1 ≡ some (chosen s)
  serve_id_is g id b s found taken =
      ap (λ o. (elim o as (λ x. Outcome F) [ none ↦ (g, none) | some a ↦ serve g a ]).1) found
      ∙ ap (Option.map chosen) taken

  serve_id-some :
      (f : Fleet F) (accounts : List (Account F)) (current : Option String) (req : SelectRequest)
      (now : ℤ) (id : String)
      → distinct_ids f.accounts ≡ true
      → SameAccounts f.accounts accounts
      → serves f (unprobed req) now id ≡ true
      → (s : Selected) × ((serve_id (record f { accounts = accounts; current = current }) id).1
          ≡ some (chosen s))
  unfolding account
  serve_id-some f accounts current req now id distinct es h =
      let g : Fleet F = record f { accounts = accounts; current = current } in
      let same : SameFleet f g = same_fleet accounts current es in
      let (a, (at, named, ok)) = server_of f req now id h in
      let (y, at_y, same_y) = same-At es at in
      let id_y : y.id ≡ id = sym (id-same same_y) ∙ named in
      let (b, found) = find-some (has_id id) at_y (rw (id_y) (eq_refl id)) in
      let (at_b, id_b) = account-At g id found in
      let (c, at_c, same_c) = At-same es at_b in
      let one : c ≡ a = At-unique f.accounts distinct at_c at (id-same same_c ∙ id_b ∙ sym named) in
      let ok_c : is_available_for f c (unprobed req) now ≡ true =
        subst (λ (x : Account F). is_available_for f x (unprobed req) now ≡ true) (sym one) ok in
      let ok_b : is_available_for g b (unprobed req) now ≡ true =
        available-same (unprobed req) now same same_c ∙ ok_c in
      let (s, taken) = snapshot-some g b (unprobed req) now ok_b in
      (s, serve_id_is g id b s found taken)

  serve_id_found :
      (f g : Fleet F) (req : SelectRequest) (now : ℤ) (id : String)
      → distinct_ids f.accounts ≡ true
      → SameFleet f g
      → serves f (unprobed req) now id ≡ true
      → (serve_id g id).1 ≢ none
  serve_id_found f g req now id distinct (same_fleet accounts current es) h e =
      let (s, taken) = serve_id-some f accounts current req now id distinct es h in
      let clash : some (chosen s) ≡ none = sym taken ∙ e in absurd (cc clash)

  ranked_unprobed :
      (f g : Fleet F) (req : SelectRequest) (now : ℤ)
      → SameFleet f g
      → all (λ (a : Account F). serves f (unprobed req) now a.id) (ranked_available g req now)
        ≡ true
  unfolding ranked_available ranked_by_default available is_available_for
  ranked_unprobed f g req now same = ranked-serves (unprobed req) now same

  -- Without expiry routing nothing that is available is left out of the order.
  ranked-empty :
      (g : Fleet F) (req : SelectRequest) (now : ℤ)
      → g.expiry.enabled ≡ false
      → ranked_available g req now ≡ []
      → available g req now ≡ []
  unfolding ranked_available ranked_by_default
  ranked-empty g req now plain h = by_default g.expiry.enabled plain _ (sorted g.soonest_reset _ h)
    where
      sorted :
          (t : Bool) (v : List (Account F))
          → (if t then sort_by (compare_soonest g (stats now g.sessions) req.model now v) v else v)
            ≡ []
          → v ≡ []
      sorted true v h = sort_by-empty _ v h
      sorted false v h = h

      by_default :
          (t : Bool)
          → t ≡ false
          → (v : List (Account F))
          → (if t
              then band g req.model now v
              else sort_by (compare_default g (stats now g.sessions) req.model) v)
            ≡ []
          → v ≡ []
      by_default true e v h = absurd (cc e)
      by_default false e v h = sort_by-empty _ v h

  -- The best account is served, so where the stage selects nothing, nothing is available.
  select_best-none :
      (f g : Fleet F) (req : SelectRequest) (now : ℤ)
      → distinct_ids f.accounts ≡ true
      → g.expiry.enabled ≡ false
      → SameFleet f g
      → (select_best req now g).1 ≡ none
      → all (λ (a : Account F). not (may_serve g req now a)) g.accounts ≡ true
  unfolding select_best available
  select_best-none f g req now distinct plain same h = keep-empty _ g.accounts (
      ranked-empty g req now plain
        (go (ranked_available g req now) (ranked_unprobed f g req now same) h))
    where
      go :
          (v : List (Account F))
          → all (λ (a : Account F). serves f (unprobed req) now a.id) v ≡ true
          → (elim (first v) as (λ x. Outcome F) [
            | none ↦ (g, none)
            | some best ↦ move_to req now g best
          ]).1
            ≡ none
          → v ≡ []
      go [] ok h = refl
      go (a ∷ v) ok h = absurd (
          serve_id_found f _ req now a.id distinct
            (note_baseline-same a.id req.model (set_current-same a.id now false same))
            (ground arith) h)

  all_idle :
      (req : SelectRequest) (now : ℤ) (f g : Fleet F)
      → SameFleet f g
      → {xs ys : List (Account F)} → SameAccounts xs ys
      → all (λ (a : Account F). not (may_serve g req now a)) ys ≡ true
      → all (λ (a : Account F). not (may_serve f req now a)) xs ≡ true
  all_idle req now f g same nil h = refl
  all_idle req now f g same (cons {a} {b} {xs} {ys} e es) h =
      let same_id = id-same e in
      let same_test = available-same req now same e in
      let own : not (may_serve g req now b) ≡ true = ground arith in
      and_true (not (may_serve f req now a)) _
        (ap not (
            and_same (not (member a.id req.exclude)) (not (member b.id req.exclude))
              (is_available_for f a req now) (is_available_for g b req now)
              (ap (λ i. not (member i req.exclude)) same_id) (sym same_test))
          ∙ own)
        (all_idle req now f g same es (ground arith))

  or_next-none :
      (o : Outcome F) (next : Fleet F → Outcome F)
      → (or_next o next).1 ≡ none
      → (o.1 ≡ none) × ((next o.0).1 ≡ none)
  or_next-none (g, some s) next h = absurd (cc h)
  or_next-none (g, none) next h = (refl, h)

  -- Of a chain of stages that selects nothing, the fourth selects nothing either.
  fourth_none :
      {G : Type 0} (f : Fleet F) (req : SelectRequest) (now : ℤ) (o : Outcome F)
      (b c d e : Fleet F → Outcome F)
      → Sound f req now o
      → ((g : Fleet F) → SameFleet f g → Sound f req now (b g))
      → ((g : Fleet F) → SameFleet f g → Sound f req now (c g))
      → ((g : Fleet F) → SameFleet f g → (d g).1 ≡ none → G)
      → (or_next o (λ f₁. or_next (b f₁) (λ f₂. or_next (c f₂) (λ f₃. or_next (d f₃) e)))).1 ≡ none
      → G
  fourth_none f req now o b c d e so sb sc goal h =
      let h₁ =
        (or_next-none o (λ f₁. or_next (b f₁) (λ f₂. or_next (c f₂) (λ f₃. or_next (d f₃) e)))
          h).1 in
      let h₂ = (or_next-none (b o.0) (λ f₂. or_next (c f₂) (λ f₃. or_next (d f₃) e)) h₁).1 in
      let h₃ = (or_next-none (c (b o.0).0) (λ f₃. or_next (d f₃) e) h₂).1 in
      let h₄ = (or_next-none (d (c (b o.0).0).0) e h₃).0 in
      goal (c (b o.0).0).0 (sc (b o.0).0 (sb o.0 so.0).0).0 h₄

  select_unpinned-none :
      (f : Fleet F) (req : SelectRequest) (now : ℤ)
      → distinct_ids f.accounts ≡ true
      → f.expiry.enabled ≡ false
      → (select_unpinned req now f).1 ≡ none
      → all (λ (a : Account F). not (may_serve f req now a)) f.accounts ≡ true
  unfolding select_unpinned
  select_unpinned-none f req now distinct plain h =
      fourth_none f req now (select_route_pin req now f) (select_session req now)
        (select_current req now) (select_best req now) (select_probe req now)
        (select_route_pin-Sound f req now f (SameFleet-refl f)) (select_session-Sound f req now)
        (select_current-Sound f req now) best h
    where
      best :
          (g : Fleet F)
          → SameFleet f g
          → (select_best req now g).1 ≡ none
          → all (λ (a : Account F). not (may_serve f req now a)) f.accounts ≡ true
      best g (same_fleet accounts current es) h =
          let same : SameFleet f (record f { accounts = accounts; current = current }) =
            same_fleet accounts current es in
          all_idle req now f _ same es (select_best-none f _ req now distinct plain same h)

  -- A request without a pin is told that the fleet is exhausted only where no account may serve it:
  -- without expiry routing, and where ids are distinct.
  pub select-exhausted :
      (f : Fleet F) (req : SelectRequest) (now : ℤ) (retry : Option ℕ)
      (why : List (String × Option (Reason F)))
      → distinct_ids (clear_expired_all now f).accounts ≡ true
      → f.expiry.enabled ≡ false
      → req.pin ≡ none
      → (select req now f).1 ≡ exhausted retry why
      → all
          (λ (a : Account F). not (may_serve (clear_expired_all now f) req now a))
          (clear_expired_all now f).accounts
        ≡ true
  unfolding select clear_expired_all
  select-exhausted f req now retry why distinct plain no_pin h = go req.pin no_pin h
    where
      fresh : Fleet F
      fresh = clear_expired_all now f

      answered :
          (o : Outcome F)
          → Sound fresh req now o
          → (or_exhausted req now o).1 ≡ exhausted retry why
          → o.1 ≡ none
      answered (g, none) sound h = refl
      answered (g, some s) sound h = absurd (subst (λ x. Serves fresh req now (some x)) h sound.1)

      go :
          (o : Option String)
          → o ≡ none
          → (elim o as (λ x. Fleet F × Selection F) [
            | some pin ↦ (fresh, select_pin fresh req now pin)
            | none ↦ or_exhausted req now (select_unpinned req now fresh)
          ]).1
            ≡ exhausted retry why
          → all (λ (a : Account F). not (may_serve fresh req now a)) fresh.accounts ≡ true
      go (some pin) e h = absurd (cc e)
      go none e h =
          select_unpinned-none fresh req now distinct plain
            (answered (select_unpinned req now fresh) (select_unpinned-Sound fresh req now) h)
