-- ===== src/Fleet/Selection/Pinned.antt =====
-- src/manager.rs: the first stage of `Fleet::select`, an explicit pin.
use mathlib.Core.Option
use corrall.Prelude.{
  String, ◌≡◌, refl, sym, subst, ap, ◌∙◌, Bool, true, false, ◌||◌, Option, none, some, At,
  if◌then◌else◌,
}
use corrall.Prelude.Int.{ℤ}
use corrall.Prelude.Float.{Float}
use corrall.Fleet.{Account, Fleet, Selected, SelectRequest, account}
use corrall.Fleet.Upstream.{Platform}
use corrall.Fleet.Eligibility.{Reason, is_none, is_soft, unavailable_reason_for}
use corrall.Fleet.Cursor.{mgr_resolve, clear_expired_all}
use corrall.Fleet.Select.{
  Selection, chosen, pin_unavailable, pin_unknown, snapshot, select_pinned, select_pin,
  is_soft_reason,
}
use corrall.Fleet.Selection.{select, select_unpinned, or_exhausted}
use corrall.Fleet.Selection.Scope.Stages.{account-At, snapshot-id}

module _ {F : Type 0} ⦃fl : Float F⦄ ⦃pf : Platform⦄ where
  -- Nothing but its quota may bar the account that a pin names.
  abbrev pub passes_pin : Fleet F → SelectRequest → ℤ → Account F → Bool
  passes_pin f req now a =
      let reason = unavailable_reason_for f a req.model req.advisor_model req.provider now in
      is_none reason || is_soft_reason reason

  select_pinned-chosen :
      (f : Fleet F) (req : SelectRequest) (now : ℤ) (a : Account F) (s : Selected)
      → select_pinned f req now a ≡ chosen s
      → (s.id ≡ a.id) × (passes_pin f req now a ≡ true)
  unfolding select_pinned
  select_pinned-chosen f req now a s h =
      go (unavailable_reason_for f a req.model req.advisor_model req.provider now) h
    where
      served : Option Selected → Selection F
      served o = elim o [ some s ↦ chosen s | none ↦ pin_unavailable a.name none ]

      taken : (o : Option Selected) → snapshot f a ≡ o → served o ≡ chosen s → s.id ≡ a.id
      taken none e h = absurd (cc h)
      taken (some t) e h =
          let same : t ≡ s = cc h in
          subst (λ (x : Selected). x.id ≡ a.id) same (snapshot-id f a t e)

      go :
          (r : Option (Reason F))
          → (elim r [
            | none ↦ served (snapshot f a)
            | some r ↦ if is_soft r then served (snapshot f a) else pin_unavailable a.name (some r)
          ])
            ≡ chosen s
          → (s.id ≡ a.id) × ((is_none r || is_soft_reason r) ≡ true)
      go none h = (taken (snapshot f a) refl h, refl)
      go (some r) h = soft (is_soft r) h
        where
          soft :
              (t : Bool)
              → (if t then served (snapshot f a) else pin_unavailable a.name (some r)) ≡ chosen s
              → (s.id ≡ a.id) × (t ≡ true)
          soft true h = (taken (snapshot f a) refl h, refl)
          soft false h = absurd (cc h)

  -- The selection `s` is of the account `a` of the fleet, which the pin names and which may serve.
  abbrev pub PinServes : Fleet F → SelectRequest → ℤ → String → Selected → Account F → Type 0
  PinServes f req now pin s a =
      At a f.accounts
      × (s.id ≡ a.id)
      × (mgr_resolve f pin ≡ some s.id)
      × (passes_pin f req now a ≡ true)

  select_pin-chosen :
      (f : Fleet F) (req : SelectRequest) (now : ℤ) (pin : String) (s : Selected)
      → select_pin f req now pin ≡ chosen s
      → (a : Account F) × PinServes f req now pin s a
  unfolding select_pin Option.bind
  select_pin-chosen f req now pin s h = resolved (mgr_resolve f pin) refl h
    where
      Good : Account F → Option String → Type 0
      Good a r = At a f.accounts × (s.id ≡ a.id) × (r ≡ some s.id) × (passes_pin f req now a ≡ true)

      found :
          (id : String) (o : Option (Account F))
          → account f id ≡ o
          → (elim o [ none ↦ pin_unknown | some a ↦ select_pinned f req now a ]) ≡ chosen s
          → (a : Account F) × Good a (some id)
      found id none e h = absurd (cc h)
      found id (some a) e h =
          let (at, named) = account-At f id e in
          let (same, ok) = select_pinned-chosen f req now a s h in
          (a, (at, same, ap some (sym named ∙ sym same), ok))

      resolved :
          (r : Option String)
          → mgr_resolve f pin ≡ r
          → (elim (Option.bind r (account f)) [
            | none ↦ pin_unknown
            | some a ↦ select_pinned f req now a
          ])
            ≡ chosen s
          → (a : Account F) × Good a (mgr_resolve f pin)
      resolved none e h = absurd (cc h)
      resolved (some id) e h = rw (e) (found id (account f id) refl h)

  -- A pinned request that is sent is sent with the account that its pin names, and nothing but the
  -- quota of that account may speak against it: a pin is never failed over to another one.
  pub select-pinned :
      (f : Fleet F) (req : SelectRequest) (now : ℤ) (pin : String) (s : Selected)
      → req.pin ≡ some pin
      → (select req now f).1 ≡ chosen s
      → (a : Account F) × PinServes (clear_expired_all now f) req now pin s a
  unfolding select
  select-pinned f req now pin s pinned h = go req.pin pinned h
    where
      fresh : Fleet F
      fresh = clear_expired_all now f

      go :
          (o : Option String)
          → o ≡ some pin
          → (elim o as (λ x. Fleet F × Selection F) [
            | some p ↦ (fresh, select_pin fresh req now p)
            | none ↦ or_exhausted req now (select_unpinned req now fresh)
          ]).1
            ≡ chosen s
          → (a : Account F) × PinServes fresh req now pin s a
      go none e h = absurd (cc e)
      go (some p) e h =
          let same : p ≡ pin = cc e in
          select_pin-chosen fresh req now pin s
            (subst (λ q. select_pin fresh req now q ≡ chosen s) same h)
