-- ===== src/Fleet/Health/Holds/Runs.antt =====
-- src/manager.rs: selections while an account is on hold.
use corrall.Prelude.{
  ℕ, ◌+◌, ◌-◌, ◌*◌, ◌^◌, ◌<◌, String, ◌≡◌, ◌≢◌, refl, sym, subst, ◌∙◌, Bool, true, false, List, [],
  ◌∷◌, Option, none, some, all, ltb, arith, lt→ltb, and_true, not, ◌||◌, ◌==◌,
}
use corrall.Prelude.Int.{ℤ, pos, leb_ℤ, add_i64, scale_i64, wrap_i64}
use corrall.Prelude.Float.{Float}
use corrall.Fleet.{Account, Fleet, Selected, SelectRequest, account_mut}
use corrall.Fleet.Upstream.{Platform}
use corrall.Fleet.Eligibility.{is_later}
use corrall.Fleet.Bookkeeping.{same, SameAccounts, nil, cons, SameFleet, same_fleet}
use corrall.Fleet.Cursor.{clear_expired_all}
use corrall.Fleet.Select.{chosen}
use corrall.Fleet.Selection.{select}
use corrall.Fleet.Selection.Scope.{serves}
use corrall.Fleet.Selection.Scope.Whole.{select-serves, select-SameFleet}
use corrall.Fleet.Health.{hold}
use corrall.Fleet.Health.Holds.{
  hold_end, distinct_ids, paused, modify_first-paused, clear_expired_all-paused, no_server,
}

-- The time of each selection is before `end`.
abbrev pub all_before : ℕ → List (SelectRequest × ℕ) → Bool
all_before end runs = all (λ (e : SelectRequest × ℕ). ltb e.1 end) runs

module _ {F : Type 0} where
  -- The notes of a selection do not end a pause.
  SameAccounts-paused :
      (id : String) (t : ℤ) {v w : List (Account F)}
      → SameAccounts v w
      → all (paused id t) v ≡ true
      → all (paused id t) w ≡ true
  SameAccounts-paused id t nil h = refl
  SameAccounts-paused id t (cons (same b p r g q) es) h =
      and_true _ _ (ground arith) (SameAccounts-paused id t es (ground arith))

  SameFleet-paused :
      (id : String) (t : ℤ) {f g : Fleet F}
      → SameFleet f g
      → all (paused id t) f.accounts ≡ true
      → all (paused id t) g.accounts ≡ true
  SameFleet-paused id t (same_fleet accounts current es) h = SameAccounts-paused id t es h

  all-earlier :
      (id : String) (last t : ℕ) (v : List (Account F))
      → t < last + 1
      → all (paused id (pos last)) v ≡ true
      → all (paused id (pos t)) v ≡ true
  all-earlier id last t [] early h = refl
  all-earlier id last t (a ∷ v) early h =
      and_true (paused id (pos t) a) (all (paused id (pos t)) v)
        (go (not (a.id == id)) (a.rate_limited_until) (ground arith))
        (all-earlier id last t v early (ground arith))
    where
      go :
          (b : Bool) (o : Option ℤ)
          → (b || is_later o (pos last)) ≡ true
          → (b || is_later o (pos t)) ≡ true
      go true o h = refl
      go false none h = h
      go false (some u) h = ground arith

module _ {F : Type 0} ⦃fl : Float F⦄ ⦃pf : Platform⦄ where
  -- The fleet after selections, each with its request and its time.
  abbrev pub after_selections : List (SelectRequest × ℕ) → Fleet F → Fleet F
  after_selections [] f = f
  after_selections ((req, t) ∷ runs) f = after_selections runs (select req (pos t) f).0

  after_selections-paused :
      (id : String) (last : ℕ) (runs : List (SelectRequest × ℕ)) (f : Fleet F)
      → all_before (last + 1) runs ≡ true
      → all (paused id (pos last)) f.accounts ≡ true
      → all (paused id (pos last)) (after_selections runs f).accounts ≡ true
  after_selections-paused id last [] f early h = h
  after_selections-paused id last ((req, t) ∷ runs) f early h =
      after_selections-paused id last runs (select req (pos t) f).0 (ground arith) (
        SameFleet-paused id (pos last) (select-SameFleet f req (pos t)).1
          (clear_expired_all-paused id (pos t) (pos last) f (ground arith) h))

  held-paused :
      (f : Fleet F) (id : String) (n secs last : ℕ) (quota : Bool)
      → distinct_ids f.accounts ≡ true
      → n + secs * 1000 < 2 ^ 63
      → last + 1 ≡ n + secs * 1000
      → all (paused id (pos last)) (hold id secs quota (pos n) f).accounts ≡ true
  unfolding hold account_mut
  held-paused f id n secs last quota distinct small ends =
      let until : is_later (some (add_i64 (pos n) (scale_i64 (wrap_i64 (pos secs)) 1000)))
            (pos last)
          ≡ true =
        rw (hold_end n secs small) (lt→ltb _ _ (omega (arith, ends))) in
      modify_first-paused id (pos last) _ f.accounts distinct (λ a. until)

  -- An account that was put on hold for `secs` seconds, be it by its quota or by a rate limit, is
  -- chosen by no selection without a pin before the hold ends, however many selections, with a pin or
  -- without, went before it since the hold began. Nothing but selections may have changed the fleet
  -- since then (an answer other than a 429, or a probe, may end the hold early), ids are distinct, and
  -- times are in range.
  pub select-hold :
      (f : Fleet F) (req : SelectRequest) (id : String) (n secs : ℕ) (quota : Bool)
      (earlier : List (SelectRequest × ℕ)) (t : ℕ) (s : Selected)
      → distinct_ids f.accounts ≡ true
      → n + secs * 1000 < 2 ^ 63
      → all_before (n + secs * 1000) earlier ≡ true
      → t < n + secs * 1000
      → req.pin ≡ none
      → (select req (pos t) (after_selections earlier (hold id secs quota (pos n) f))).1 ≡ chosen s
      → s.id ≢ id
  select-hold f req id n secs quota earlier t s distinct small runs before no_pin h named =
      let last = n + secs * 1000 - 1 in
      let ends : last + 1 ≡ n + secs * 1000 = omega (arith, before) in
      let held = after_selections earlier (hold id secs quota (pos n) f) in
      let stays =
        after_selections-paused id last earlier (hold id secs quota (pos n) f)
          (subst (λ end. all_before end earlier ≡ true) (sym ends) runs)
          (held-paused f id n secs last quota distinct small ends) in
      let fresh = clear_expired_all (pos t) held in
      let early : leb_ℤ (pos t) (pos t) ≡ true = ground arith in
      let idle = no_server fresh req (pos t) id fresh.accounts (
        clear_expired_all-paused id (pos t) (pos t) held early
          (all-earlier id last t held.accounts (omega (arith, before, ends)) stays)) in
      let serving : serves fresh req (pos t) id ≡ true =
        subst (λ i. serves fresh req (pos t) i ≡ true) named
          (select-serves held req (pos t) s no_pin h) in
      let clash : true ≡ false = sym serving ∙ idle in absurd (cc clash)
