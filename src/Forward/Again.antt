-- ===== src/Forward/Again.antt =====
-- src/proxy/forward.rs: which accounts one request is sent to again.
use corrall.Prelude.{
  ℕ, zero, suc, ◌+◌, ◌*◌, String, ◌≡◌, refl, ap, Bool, true, false, not, ◌&&◌, ◌||◌, List, [], ◌∷◌,
  Option, none, some, all, any, length, leb, eq_iff, ◌==◌, arith, if◌then◌else◌, subst, Bool-cases,
  inl, inr,
}
use corrall.Prelude.Int.{ℤ}
use corrall.Prelude.Float.{Float}
use corrall.Session.{member}
use corrall.Fleet.{Account, Fleet, SelectRequest}
use corrall.Fleet.Upstream.{Platform}
use corrall.Fleet.Eligibility.{is_none}
use corrall.Fleet.Select.{Selection, chosen, exhausted, pin_unavailable, pin_unknown, may_serve}
use corrall.Fleet.Selection.{select}
use corrall.Fleet.Selection.Scope.{serves, may_revalidate}
use corrall.Fleet.Selection.Scope.Whole.{select-serves}
use corrall.Fleet.Cursor.{clear_expired_all}
use corrall.Forward.{
  World, ReqInfo, Trying, Attempt, done, reject, failover, retry_same, rate_limited_hop, abort,
  Next, Reply, is_nil, answer, again, add_id, drop_id, request_for, on_exhausted, on_failover,
  on_hop, on_retry, after_attempt, on_selection, round, max_attempts, max_rate_limit_hops, refused,
  upstream_limit, two_in_a_row, all_failed, rounds, forward, and_then, start,
}

module _ {R : Type 0} where
  -- The attempt moves the request off its account.
  abbrev pub leaves : Attempt R → Bool
  leaves (failover transient) = true
  leaves (rate_limited_hop retry_after) = true
  leaves _ = false

  abbrev pub absent : String → List (String × Attempt R) → Bool
  absent x asked = all (λ (e : String × Attempt R). not (e.0 == x)) asked

  -- No account that the request was moved off is asked again.
  abbrev pub is_left_for_good : List (String × Attempt R) → Bool
  is_left_for_good [] = true
  is_left_for_good ((id, a) ∷ asked) = (not (leaves a) || absent id asked) && is_left_for_good asked

member-add_id :
    (x id : String) (ids : List String) → member x ids ≡ true → member x (add_id id ids) ≡ true
member-add_id x id ids h = ground (arith, h)

added : (id : String) (ids : List String) → member id (add_id id ids) ≡ true
added id ids = elim (Bool-cases (member id ids)) [
  | inl old ↦ rw (old, old) refl
  | inr new ↦ rw new (ground (arith, eq_iff id id))
]

member-drop_id :
    (x id : String) (ids : List String)
    → (id == x) ≡ false
    → member x ids ≡ true
    → member x (drop_id id ids) ≡ true
member-drop_id x id [] h k = k
member-drop_id x id (y ∷ ids) h k =
    ground (arith, eq_iff y x, eq_iff y id, eq_iff id x, member-drop_id x id ids)

apart_of :
    (id x : String) (ids : List String)
    → member id ids ≡ false
    → member x ids ≡ true
    → (id == x) ≡ false
apart_of id x ids h k = elim (Bool-cases (id == x)) [
  | inl same ↦ absurd (cc (ap (λ y. member y ids) ((eq_iff id x).0 same), k, h))
  | inr apart ↦ apart
]

free : (m a p b : Bool) → ((not m && a) || (p && (not m && b))) ≡ true → m ≡ false
free m a p b h = ground arith

follow :
    (l m absent later : Bool)
    → (not l || m) ≡ true
    → (m ≡ true → absent ≡ true)
    → later ≡ true
    → ((not l || absent) && later) ≡ true
follow l true absent later h k r = rw (k refl, r) (ground arith)
follow true false absent later h k r = absurd (ground arith)
follow false false absent later h k r = r

both : (a b : Bool) → (a && b) ≡ true → (a ≡ true) × (b ≡ true)
both a b h = ground arith

module _ {F : Type 0} where
  any_named :
      (p : Account F → Bool) (ids : List String) (id : String)
      → ((a : Account F) → p a ≡ true → member a.id ids ≡ false)
      → (v : List (Account F)) → any (λ (a : Account F). a.id == id && p a) v ≡ true
      → member id ids ≡ false
  any_named p ids id h [] k = absurd (cc k)
  any_named p ids id h (a ∷ v) k = elim (Bool-cases (a.id == id && p a)) [
    | inl hit ↦
        subst (λ i. member i ids ≡ false) ((eq_iff a.id id).0 (both (a.id == id) (p a) hit).0)
          (h a (both (a.id == id) (p a) hit).1)
    | inr miss ↦ any_named p ids id h v (rw miss at k)
  ]

module _ {F : Type 0} ⦃fl : Float F⦄ ⦃pf : Platform⦄ where
  not_excluded :
      (f : Fleet F) (req : SelectRequest) (now : ℤ) (id : String)
      → serves f req now id ≡ true
      → member id req.exclude ≡ false
  not_excluded f req now id h =
      any_named (λ a. may_serve f req now a || may_revalidate f req now a) req.exclude id
        (λ a k. free _ _ _ _ k) f.accounts h

module _ (F : Type 0) {R : Type 0} where
  -- What one pass does to the accounts that were tried.
  abbrev Sound : Trying → Option (String × Attempt R) → Next F R → Type 0
  Sound t none (answer r) = Unit
  Sound t none (again t') = ⊥
  Sound t (some (id, a)) (answer r) = member id t.tried ≡ false
  Sound t (some (id, a)) (again t') =
      (member id t.tried ≡ false)
      × ((not (leaves a) || member id t'.tried) ≡ true)
      × ((x : String) → member x t.tried ≡ true → member x t'.tried ≡ true)

  -- The loop goes on with `next` after its tests, or answers.
  one-Sound :
      (p : Bool) (t next : Trying) (id : String) (a : Attempt R) (r : Reply F R)
      → member id t.tried ≡ false
      → (not (leaves a) || member id next.tried) ≡ true
      → ((x : String) → member x t.tried ≡ true → member x next.tried ≡ true)
      → Sound t (some (id, a)) (if p then answer r else again next)
  one-Sound true t next id a r h l m = h
  one-Sound false t next id a r h l m = (h, l, m)

  two-Sound :
      (p q : Bool) (t next : Trying) (id : String) (a : Attempt R) (r s : Reply F R)
      → member id t.tried ≡ false
      → (not (leaves a) || member id next.tried) ≡ true
      → ((x : String) → member x t.tried ≡ true → member x next.tried ≡ true)
      → Sound t (some (id, a)) (if p then answer r else if q then answer s else again next)
  two-Sound true q t next id a r s h l m = h
  two-Sound false q t next id a r s h l m = one-Sound q t next id a s h l m

  three-Sound :
      (p q k : Bool) (t next : Trying) (id : String) (a : Attempt R) (r s u : Reply F R)
      → member id t.tried ≡ false
      → (not (leaves a) || member id next.tried) ≡ true
      → ((x : String) → member x t.tried ≡ true → member x next.tried ≡ true)
      → Sound t
          (some (id, a))
          (if p then answer r else if q then answer s else if k then answer u else again next)
  three-Sound true q k t next id a r s u h l m = h
  three-Sound false q k t next id a r s u h l m = two-Sound q k t next id a s u h l m

  after_attempt-Sound :
      (pinned : Bool) (id : String) (a : Attempt R) (t : Trying)
      → member id t.tried ≡ false
      → Sound t (some (id, a)) (after_attempt pinned id a t)
  unfolding after_attempt on_failover on_hop on_retry
  after_attempt-Sound pinned id (done r) t h = h
  after_attempt-Sound pinned id (reject r) t h = h
  after_attempt-Sound pinned id (abort r) t h = h
  after_attempt-Sound pinned id (failover transient) t h =
      two-Sound pinned _ t (record t { tried = add_id id t.tried }) id (failover transient) _ _ h
        (added id t.tried) (λ x. member-add_id x id t.tried)
  after_attempt-Sound pinned id (rate_limited_hop s) t h =
      three-Sound pinned (leb max_rate_limit_hops (t.rate_limit_hops + 1))
        (leb max_attempts (length (add_id id t.tried))) t
        (record t { tried = add_id id t.tried; rate_limit_hops = t.rate_limit_hops + 1 }) id
        (rate_limited_hop s) (refused 429 upstream_limit (some s))
        (refused 429 two_in_a_row (some s)) (refused 502 all_failed (some s)) h (added id t.tried)
        (λ x. member-add_id x id t.tried)
  after_attempt-Sound pinned id (retry_same wait) t h =
      one-Sound _ t
        (record t { tried = drop_id id t.tried; same_account_retries = t.same_account_retries + 1 })
        id (retry_same wait) _ h refl
        (λ x k. member-drop_id x id t.tried (apart_of id x t.tried h k) k)

module _ {F R : Type 0} ⦃fl : Float F⦄ ⦃pf : Platform⦄ (w : World F R) (info : ReqInfo) where
  on_selection-Sound :
      (n : ℕ) (t : Trying) (f : Fleet F) (o : Fleet F × Selection F)
      → info.pin ≡ none
      → w.hold_deadline ≡ none
      → select (request_for info t) (w.clock n) f ≡ o
      → Sound F t (on_selection w info n t o).asked (on_selection w info n t o).next
  unfolding on_selection on_exhausted
  on_selection-Sound n t f (g, chosen s) no_pin no_hold e =
      after_attempt-Sound F _ s.id (w.attempt n s g).1 t (
        not_excluded (clear_expired_all (w.clock n) f) (request_for info t) (w.clock n) s.id
          (select-serves f (request_for info t) (w.clock n) s no_pin (ap (λ r. r.1) e)))
  on_selection-Sound n t f (g, pin_unknown) no_pin no_hold e = tt
  on_selection-Sound n t f (g, pin_unavailable name why) no_pin no_hold e = tt
  on_selection-Sound n t f (g, exhausted wait why) no_pin no_hold e =
      rw no_hold (ends (not (is_nil t.tried) && is_none wait) (is_nil t.tried) _ _ _)
    where
      ends :
          (a b : Bool) (x y z : Reply F R)
          → Sound F t none (if a then answer x else if b then answer y else answer z)
      ends true b x y z = tt
      ends false true x y z = tt
      ends false false x y z = tt

  -- An account that was tried is asked no more.
  rounds-absent :
      (left n : ℕ) (t : Trying) (f : Fleet F) (x : String)
      → info.pin ≡ none
      → w.hold_deadline ≡ none
      → member x t.tried ≡ true
      → absent x (rounds w info left n t f).asked ≡ true
  unfolding rounds round
  rounds-absent zero n t f x no_pin no_hold h = refl
  rounds-absent (suc left) n t f x no_pin no_hold h =
      go (round w info n t f).asked (round w info n t f).next
        (on_selection-Sound n t (w.others n f)
          (select (request_for info t) (w.clock n) (w.others n f)) no_pin no_hold refl)
        (λ t' k. rounds-absent left (suc n) t' (round w info n t f).fleet x no_pin no_hold k)
    where
      g : Fleet F
      g = (round w info n t f).fleet

      go :
          (o : Option (String × Attempt R)) (next : Next F R)
          → Sound F t o next
          → ((t' : Trying)
              → member x t'.tried ≡ true
              → absent x (rounds w info left (suc n) t' g).asked ≡ true)
          → absent x
              (and_then o (elim next [
                | answer reply ↦ record { fleet = g; reply = reply; asked = [] }
                | again t' ↦ rounds w info left (suc n) t' g
              ])).asked
            ≡ true
      go none (answer r) s rest = refl
      go none (again t') s rest = elim s [ ]
      go (some (id, a)) (answer r) new rest = rw (apart_of id x t.tried new h) refl
      go (some (id, a)) (again t') (new, moved, kept) rest =
          rw (apart_of id x t.tried new h) (rest t' (kept x h))

  rounds-left :
      (left n : ℕ) (t : Trying) (f : Fleet F)
      → info.pin ≡ none
      → w.hold_deadline ≡ none
      → is_left_for_good (rounds w info left n t f).asked ≡ true
  unfolding rounds round
  rounds-left zero n t f no_pin no_hold = refl
  rounds-left (suc left) n t f no_pin no_hold =
      go (round w info n t f).asked (round w info n t f).next
        (on_selection-Sound n t (w.others n f)
          (select (request_for info t) (w.clock n) (w.others n f)) no_pin no_hold refl)
        (λ t'. rounds-left left (suc n) t' (round w info n t f).fleet no_pin no_hold)
    where
      g : Fleet F
      g = (round w info n t f).fleet

      go :
          (o : Option (String × Attempt R)) (next : Next F R)
          → Sound F t o next
          → ((t' : Trying) → is_left_for_good (rounds w info left (suc n) t' g).asked ≡ true)
          → is_left_for_good
              (and_then o (elim next [
                | answer reply ↦ record { fleet = g; reply = reply; asked = [] }
                | again t' ↦ rounds w info left (suc n) t' g
              ])).asked
            ≡ true
      go none (answer r) s rest = refl
      go none (again t') s rest = elim s [ ]
      go (some (id, a)) (answer r) new rest = ground arith
      go (some (id, a)) (again t') (new, moved, kept) rest =
          follow (leaves a) (member id t'.tried) _ _ moved
            (λ m. rounds-absent left (suc n) t' g id no_pin no_hold m) (rest t')

  -- A request without a pin that is not held is never sent again to an account that it was moved
  -- off, whatever the answers are and whatever other requests do to the fleet in between.
  pub forward-left :
      (f : Fleet F)
      → info.pin ≡ none
      → w.hold_deadline ≡ none
      → is_left_for_good (forward w info f).asked ≡ true
  unfolding forward
  forward-left f no_pin no_hold = rounds-left (3 * max_attempts) 0 start f no_pin no_hold
