-- ===== src/Fleet/Selection/Scope/Stages.antt =====
-- src/manager.rs: the stages of `Fleet::select`, each with what it may change and choose.
use mathlib.Core.Option
use corrall.Prelude.{
  String, ◌≡◌, refl, sym, subst, ap, Bool, true, false, ◌||◌, List, [], ◌∷◌, Option, none, some,
  all, find, At, here, there, arith, if◌then◌else◌, ◌==◌, eq_iff, Option-cases, inl, inr,
}
use corrall.Prelude.Int.{ℤ}
use corrall.Prelude.Bytes.{Bytes}
use corrall.Prelude.Float.{Float}
use corrall.Prelude.Maps.{lookup}
use corrall.Fleet.{Account, Fleet, Selected, SelectRequest, account, has_id}
use corrall.Fleet.Upstream.{Platform, upstream_for}
use corrall.Fleet.Eligibility.{route_for}
use corrall.Fleet.Ranking.{ranked_available}
use corrall.Fleet.Cursor.{rolled_over, note_baseline}
use corrall.Fleet.Bookkeeping.{
  SameFleet, set_current-same, ramp_if_cold-same, note_baseline-same, requalify-same, if-same,
}
use corrall.Fleet.Select.{
  Selection, chosen, Outcome, or_next, snapshot, serve, serve_id, with_best, first, may_serve,
  is_better, stay, session_pin, select_session_pin, current_ok, select_new_session, select_session,
  move_to, select_requalified, move_on, is_scoped, divert, select_sticky, select_current,
  select_best, select_route_pin,
}
use corrall.Fleet.Selection.Scope.{serves, may_serve-serves, ranked-serves}

module _ {F : Type 0} ⦃fl : Float F⦄ ⦃pf : Platform⦄ where
  pub find-At :
      (p : Account F → Bool) (v : List (Account F)) {a : Account F}
      → find p v ≡ some a
      → At a v × (p a ≡ true)
  find-At p [] h = absurd (cc h)
  find-At p (x ∷ v) {a} h = go (p x) refl h (λ h'. find-At p v h')
    where
      go :
          (t : Bool)
          → p x ≡ t
          → (if t then some x else find p v) ≡ some a
          → (find p v ≡ some a → At a v × (p a ≡ true))
          → At a (x ∷ v) × (p a ≡ true)
      go true e h rest =
          let same : x ≡ a = cc h in
          subst (λ (y : Account F). At y (x ∷ v) × (p y ≡ true)) same (here, e)
      go false e h rest = let (at, e') = rest h in (there at, e')

  pub account-At :
      (f : Fleet F) (id : String) {a : Account F}
      → account f id ≡ some a
      → At a f.accounts × (a.id ≡ id)
  unfolding account
  account-At f id {a} h =
      let (at, e) = find-At (has_id id) f.accounts h in (at, (eq_iff a.id id).0 e)

  pub snapshot-id :
      (f : Fleet F) (a : Account F) (s : Selected) → snapshot f a ≡ some s → s.id ≡ a.id
  unfolding snapshot
  snapshot-id f a s h = go (upstream_for a f.default_upstream) a.credential h
    where
      go :
          (up cred : Option String)
          → (elim up [
            | none ↦ none
            | some upstream ↦ elim cred [
              | none ↦ none
              | some credential ↦ some (record {
                id = a.id;
                name = a.name;
                kind = a.kind;
                provider = a.provider;
                account_id = a.account_id;
                credential = credential;
                account_uuid = a.account_uuid;
                upstream = upstream;
                model_map = a.model_map;
                strip_request_fields = a.strip_request_fields;
              })
            ]
          ])
            ≡ some s
          → s.id ≡ a.id
      go none cred h = absurd (cc h)
      go (some u) none h = absurd (cc h)
      go (some u) (some c) h =
          sym (
            ap (λ (o : Option Selected). elim o as (λ x. String) [ none ↦ a.id | some x ↦ x.id ]) h)

  -- A selection is of an account that may serve.
  abbrev pub Serves : Fleet F → SelectRequest → ℤ → Option (Selection F) → Type 0
  Serves f req now (some (chosen s)) = serves f req now s.id ≡ true
  Serves f req now none = Unit
  Serves f req now (some _) = ⊥

  -- A stage that takes notes at most, and selects whom it may.
  abbrev pub Sound : Fleet F → SelectRequest → ℤ → Outcome F → Type 0
  Sound f req now o = SameFleet f o.0 × Serves f req now o.1

module _ {F : Type 0} ⦃fl : Float F⦄ ⦃pf : Platform⦄ (f : Fleet F) (req : SelectRequest)
    (now : ℤ) where
  pub or_next-Sound :
      (o : Outcome F) (next : Fleet F → Outcome F)
      → Sound f req now o
      → ((g : Fleet F) → SameFleet f g → Sound f req now (next g))
      → Sound f req now (or_next o next)
  or_next-Sound (g, some s) next (same, ok) later = (same, ok)
  or_next-Sound (g, none) next (same, ok) later = later g same

  serve-Sound :
      (g : Fleet F) (a : Account F)
      → SameFleet f g
      → serves f req now a.id ≡ true
      → Sound f req now (serve g a)
  serve-Sound g a same ok = (same, go (snapshot g a) (snapshot-id g a))
    where
      go :
          (o : Option Selected)
          → ((s : Selected) → o ≡ some s → s.id ≡ a.id)
          → Serves f req now (Option.map chosen o)
      go none named = tt
      go (some s) named = rw (named s refl) ok

  pub serve_id-Sound :
      (g : Fleet F) (id : String)
      → SameFleet f g
      → serves f req now id ≡ true
      → Sound f req now (serve_id g id)
  serve_id-Sound g id same ok = go (account g id) (λ a h. account-At g id h)
    where
      go :
          (o : Option (Account F))
          → ((a : Account F) → o ≡ some a → At a g.accounts × (a.id ≡ id))
          → Sound f req now (elim o [ none ↦ (g, none) | some a ↦ serve g a ])
      go none named = (same, tt)
      go (some a) named = serve-Sound g a same (rw ((named a refl).1) ok)

  with_best-Sound :
      (g : Fleet F) (use_it : Account F → Outcome F)
      → SameFleet f g
      → ((best : Account F) → serves f req now best.id ≡ true → Sound f req now (use_it best))
      → Sound f req now (with_best g req now use_it)
  with_best-Sound g use_it same ok = go (ranked_available g req now) (ranked-serves req now same)
    where
      go :
          (v : List (Account F))
          → all (λ (a : Account F). serves f req now a.id) v ≡ true
          → Sound f req now (elim (first v) [ none ↦ (g, none) | some best ↦ use_it best ])
      go [] h = (same, tt)
      go (a ∷ v) h = ok a (ground arith)

  -- Go on where a test fails.
  pub unless-Sound :
      (t : Bool) (g : Fleet F) (o : Outcome F)
      → SameFleet f g
      → (t ≡ true → Sound f req now o)
      → Sound f req now (if t then o else (g, none))
  unless-Sound true g o same ok = ok refl
  unless-Sound false g o same ok = (same, tt)

  stay-Sound :
      (g : Fleet F) (a : Account F)
      → SameFleet f g
      → serves f req now a.id ≡ true
      → Sound f req now (stay req now a g)
  unfolding stay
  stay-Sound g a same ok = go (is_better g req now a || rolled_over g a req.model)
    where
      go :
          (t : Bool)
          → Sound f req now (if t then (g, none) else serve (note_baseline a.id req.model g) a)
      go true = (same, tt)
      go false = serve-Sound _ a (note_baseline-same a.id req.model same) ok

  pub select_route_pin-Sound :
      (g : Fleet F) → SameFleet f g → Sound f req now (select_route_pin req now g)
  unfolding select_route_pin Option.bind
  select_route_pin-Sound g same = by_model req.model
    where
      by_account :
          (o : Option (Account F))
          → ((a : Account F) → o ≡ some a → At a g.accounts)
          → Sound f req now (elim o [
            | none ↦ (g, none)
            | some a ↦ if may_serve g req now a then serve g a else (g, none)
          ])
      by_account none at = (same, tt)
      by_account (some a) at =
          unless-Sound (may_serve g req now a) g _ same
            (λ ok. serve-Sound g a same (may_serve-serves req now same same (at a refl) ok))

      by_pin :
          (o : Option String)
          → Sound f req now (elim (Option.bind o (account g)) [
            | none ↦ (g, none)
            | some a ↦ if may_serve g req now a then serve g a else (g, none)
          ])
      by_pin none = (same, tt)
      by_pin (some id) = by_account (account g id) (λ a h. (account-At g id h).0)

      by_model :
          (m : Option Bytes)
          → Sound f req now
              (elim (Option.bind m (λ m.
                Option.bind
                  (route_for g m)
                  (λ r. Option.bind (lookup r.name g.route_pins) (account g)))) [
                    | none ↦ (g, none)
                    | some a ↦ if may_serve g req now a then serve g a else (g, none)
                  ])
      by_model none = (same, tt)
      by_model (some m) = elim (Option-cases (route_for g m)) [
        | inl e ↦ rw (e) (same, tt)
        | inr (r, e) ↦ rw (e) (by_pin (lookup r.name g.route_pins))
      ]

  -- An account that a lookup of the fleet finds.
  found-Sound :
      (g : Fleet F) (o : Option String) (use_it : Account F → Outcome F)
      → SameFleet f g
      → ((a : Account F) → At a g.accounts → Sound f req now (use_it a))
      → Sound f req now (elim (Option.bind o (account g)) [ none ↦ (g, none) | some a ↦ use_it a ])
  unfolding Option.bind
  found-Sound g none use_it same ok = (same, tt)
  found-Sound g (some id) use_it same ok = go (account g id) (λ a h. (account-At g id h).0)
    where
      go :
          (o : Option (Account F))
          → ((a : Account F) → o ≡ some a → At a g.accounts)
          → Sound f req now (elim o [ none ↦ (g, none) | some a ↦ use_it a ])
      go none at = (same, tt)
      go (some a) at = ok a (at a refl)

  select_session_pin-Sound :
      (sid : String) (g : Fleet F)
      → SameFleet f g
      → Sound f req now (select_session_pin req now sid g)
  unfolding select_session_pin
  select_session_pin-Sound sid g same = found-Sound g (session_pin g req.model sid) _ same (λ a at.
      unless-Sound (may_serve g req now a) g _ same
        (λ ok. stay-Sound g a same (may_serve-serves req now same same at ok)))

  select_new_session-Sound :
      (g : Fleet F) → SameFleet f g → Sound f req now (select_new_session req now g)
  unfolding select_new_session
  select_new_session-Sound g same = unless-Sound g.distribute_sessions g _ same (λ on.
      with_best-Sound g _ same (λ best ok.
        serve_id-Sound _ best.id
          (if-same (current_ok g req now) (ramp_if_cold-same best.id now same)
            (set_current-same best.id now false same))
          ok))

  pub select_session-Sound :
      (g : Fleet F) → SameFleet f g → Sound f req now (select_session req now g)
  unfolding select_session
  select_session-Sound g same = go req.session_id
    where
      go :
          (o : Option String)
          → Sound f req now (elim o [
            | none ↦ (g, none)
            | some sid ↦ or_next (select_session_pin req now sid g) (select_new_session req now)
          ])
      go none = (same, tt)
      go (some sid) =
          or_next-Sound _ _ (select_session_pin-Sound sid g same) select_new_session-Sound

  move_to-Sound :
      (g : Fleet F) (best : Account F)
      → SameFleet f g
      → serves f req now best.id ≡ true
      → Sound f req now (move_to req now g best)
  move_to-Sound g best same ok =
      serve_id-Sound _ best.id
        (note_baseline-same best.id req.model (set_current-same best.id now false same)) ok

  select_requalified-Sound :
      (cur : Account F) (g : Fleet F)
      → SameFleet f g
      → Sound f req now (select_requalified req now cur g)
  unfolding select_requalified
  select_requalified-Sound cur g same = unless-Sound cur.requalify g _ same (λ on.
      with_best-Sound _ _ (requalify-same cur.id same)
        (λ best ok. move_to-Sound _ best (requalify-same cur.id same) ok))

  select_sticky-Sound :
      (cur : Account F) (h g : Fleet F)
      → SameFleet f h
      → At cur h.accounts
      → SameFleet f g
      → Sound f req now (select_sticky req now cur g)
  unfolding select_sticky
  select_sticky-Sound cur h g same_h at same = go (may_serve g req now cur) (λ ok. ok)
    where
      go :
          (t : Bool)
          → (t ≡ true → may_serve g req now cur ≡ true)
          → Sound f req now (
              if t
              then or_next
                  (stay req now cur g)
                  (λ g'. with_best g' req now (move_on req now cur.id g'))
              else with_best g req now (divert req now cur g))
      go true test =
          or_next-Sound _ _
            (stay-Sound g cur same (may_serve-serves req now same same_h at (test refl)))
            (λ g' same'. with_best-Sound g' _ same' (λ best ok.
              serve_id-Sound _ best.id
                (note_baseline-same best.id req.model
                  (if-same (best.id == cur.id) same' (set_current-same best.id now false same')))
                ok))
      go false test = with_best-Sound g _ same (λ best ok.
          serve_id-Sound _ best.id (set_current-same best.id now (is_scoped g req now cur) same) ok)

  pub select_current-Sound :
      (g : Fleet F) → SameFleet f g → Sound f req now (select_current req now g)
  unfolding select_current
  select_current-Sound g same = found-Sound g g.current _ same (λ a at.
      or_next-Sound _ _ (select_requalified-Sound a g same)
        (λ g' same'. select_sticky-Sound a g g' same at same'))

  pub select_best-Sound : (g : Fleet F) → SameFleet f g → Sound f req now (select_best req now g)
  unfolding select_best
  select_best-Sound g same = with_best-Sound g _ same (λ best ok. move_to-Sound g best same ok)
