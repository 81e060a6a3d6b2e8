-- ===== src/Fleet/Bookkeeping.antt =====
-- src/manager.rs: the notes that a selection takes (ramps, baselines, probes, the cursor), and the
-- tests on accounts that do not read them.
use mathlib.Core.Option
use corrall.Prelude.{
  ℕ, zero, suc, String, ◌≡◌, refl, ap, Bool, true, false, ◌&&◌, ◌||◌, List, [], ◌∷◌, Option, none,
  some, any, get_elem?, At, here, there, if◌then◌else◌, ◌==◌,
}
use corrall.Prelude.Int.{ℤ}
use corrall.Prelude.Bytes.{Bytes, codes, parse_usize}
use corrall.Prelude.Float.{Float}
use corrall.Prelude.Maps.{Map, insert}
use corrall.Config.{RouteConfig, is_text}
use corrall.Fleet.{Account, Fleet, SelectRequest, Provider, account_mut, modify_first, has_id}
use corrall.Fleet.Upstream.{Platform, upstream_for}
use corrall.Fleet.Eligibility.{
  is_indexed, lists_account, route_for, route_allows, weekly_key_for, capped_bucket, near_quota,
  unavailable_reason_for, is_available_for, is_none,
}
use corrall.Fleet.Cursor.{begin_ramp, ramp_if_cold, set_current, note_baseline, start_probing}

module _ {F : Type 0} where
  -- Two states of an account that differ in the notes only.
  pub data SameAccount (a : Account F) : Account F → Type 0 where
    same :
        (baseline : Map ℤ) (probed ramp : Option ℤ) (probing requalify : Bool)
        → SameAccount a (record a {
          rollover_baseline = baseline;
          last_probe_at = probed;
          ramp_started_at = ramp;
          probing = probing;
          requalify = requalify;
        })

  pub SameAccount-refl : (a : Account F) → SameAccount a a
  SameAccount-refl a =
      same a.rollover_baseline a.last_probe_at a.ramp_started_at a.probing a.requalify

  pub SameAccount-trans : {a b c : Account F} → SameAccount a b → SameAccount b c → SameAccount a c
  SameAccount-trans (same b p r g q) (same b' p' r' g' q') = same b' p' r' g' q'

  pub data SameAccounts : List (Account F) → List (Account F) → Type 0 where
    nil : SameAccounts [] []
    cons :
        {a b : Account F} {xs ys : List (Account F)}
        → SameAccount a b
        → SameAccounts xs ys
        → SameAccounts (a ∷ xs) (b ∷ ys)

  SameAccounts-refl : (xs : List (Account F)) → SameAccounts xs xs
  SameAccounts-refl [] = nil
  SameAccounts-refl (a ∷ xs) = cons (SameAccount-refl a) (SameAccounts-refl xs)

  modify_first-same :
      (p : Account F → Bool) (h : Account F → Account F)
      → ((a : Account F) → SameAccount a (h a))
      → {xs ys : List (Account F)} → SameAccounts xs ys
      → SameAccounts xs (modify_first p h ys)
  unfolding modify_first
  modify_first-same p h keeps nil = nil
  modify_first-same p h keeps (cons {a} {b} {xs} {ys} e es) =
      pick (p b) (cons (SameAccount-trans e (keeps b)) es) (cons e (modify_first-same p h keeps es))
    where
      pick :
          (t : Bool)
          → SameAccounts (a ∷ xs) (h b ∷ ys)
          → SameAccounts (a ∷ xs) (b ∷ modify_first p h ys)
          → SameAccounts (a ∷ xs) (if t then h b ∷ ys else b ∷ modify_first p h ys)
      pick true now later = now
      pick false now later = later

  -- Two states of the fleet: the cursor may have moved.
  pub data SameFleet (f : Fleet F) : Fleet F → Type 0 where
    same_fleet :
        (accounts : List (Account F)) (current : Option String)
        → SameAccounts f.accounts accounts
        → SameFleet f (record f { accounts = accounts; current = current })

  pub SameFleet-refl : (f : Fleet F) → SameFleet f f
  SameFleet-refl f = same_fleet f.accounts f.current (SameAccounts-refl f.accounts)

  pub account_mut-same :
      (id : String) (h : Account F → Account F)
      → ((a : Account F) → SameAccount a (h a))
      → {f g : Fleet F} → SameFleet f g
      → SameFleet f (account_mut id h g)
  unfolding account_mut
  account_mut-same id h keeps (same_fleet accounts current es) =
      same_fleet (modify_first (has_id id) h accounts) current
        (modify_first-same (has_id id) h keeps es)

  pub current-same :
      (cur : Option String) {f g : Fleet F}
      → SameFleet f g
      → SameFleet f (record g { current = cur })
  current-same cur (same_fleet accounts current es) = same_fleet accounts cur es

  -- What stands in the later list stood in the earlier one.
  pub At-same :
      {b : Account F} {xs ys : List (Account F)}
      → SameAccounts xs ys
      → At b ys
      → (a : Account F) × At a xs × SameAccount a b
  At-same nil h = elim h [ ]
  At-same (cons {a} e es) here = (a, here, e)
  At-same (cons e es) (there h) = let (a, at, e') = At-same es h in (a, there at, e')

  -- And the other way round.
  pub same-At :
      {a : Account F} {xs ys : List (Account F)}
      → SameAccounts xs ys
      → At a xs
      → (b : Account F) × At b ys × SameAccount a b
  same-At nil h = elim h [ ]
  same-At (cons {b = b} e es) here = (b, here, e)
  same-At (cons e es) (there h) = let (b, at, e') = same-At es h in (b, there at, e')

  pub id-same : {a b : Account F} → SameAccount a b → a.id ≡ b.id
  id-same (same b p r g q) = refl

  -- An index names an account of the same id.
  indexed-same :
      (i : ℕ) (id : String) {xs ys : List (Account F)}
      → SameAccounts xs ys
      → elim (get_elem? ys i) [ none ↦ false | some x ↦ x.id == id ]
        ≡ elim (get_elem? xs i) [ none ↦ false | some x ↦ x.id == id ]
  indexed-same i id nil = refl
  indexed-same zero id (cons (same b p r g q) es) = refl
  indexed-same (suc i) id (cons e es) = indexed-same i id es

  bound-same :
      (o : Option ℕ) (id : String) {xs ys : List (Account F)}
      → SameAccounts xs ys
      → elim (Option.bind o (get_elem? ys)) [ none ↦ false | some x ↦ x.id == id ]
        ≡ elim (Option.bind o (get_elem? xs)) [ none ↦ false | some x ↦ x.id == id ]
  unfolding Option.bind
  bound-same none id es = refl
  bound-same (some i) id es = indexed-same i id es

  is_indexed-same :
      (n : String) {f g : Fleet F} {a b : Account F}
      → SameFleet f g
      → SameAccount a b
      → is_indexed g n b ≡ is_indexed f n a
  is_indexed-same n {a} (same_fleet accounts current es) (same b p r g q) =
      bound-same (parse_usize (codes n)) a.id es

  any_named-same :
      (ns : List String) {f g : Fleet F} {a b : Account F}
      → SameFleet f g
      → SameAccount a b
      → any (λ m. m == b.name || (m == b.id || is_indexed g m b)) ns
        ≡ any (λ m. m == a.name || (m == a.id || is_indexed f m a)) ns
  any_named-same [] sf sa = refl
  any_named-same (n ∷ ns) sf sa = any_step sa (is_indexed-same n sf sa) (any_named-same ns sf sa)
    where
      any_step :
          {a b : Account F} {x y u v : Bool}
          → SameAccount a b
          → x ≡ y
          → u ≡ v
          → (n == b.name || (n == b.id || x)) || u ≡ (n == a.name || (n == a.id || y)) || v
      any_step (same b p r g q) e e' = rw (e, e')

  lists_account-same :
      (ns : List String) {f g : Fleet F} {a b : Account F}
      → SameFleet f g
      → SameAccount a b
      → lists_account g b ns ≡ lists_account f a ns
  lists_account-same [] sf sa = refl
  lists_account-same (n ∷ ns) sf sa = any_named-same (n ∷ ns) sf sa

  row-same :
      (o : Option RouteConfig) {f g : Fleet F} {a b : Account F}
      → SameFleet f g
      → SameAccount a b
      → elim o [ none ↦ true | some r ↦ lists_account g b r.accounts ]
        ≡ elim o [ none ↦ true | some r ↦ lists_account f a r.accounts ]
  row-same none sf sa = refl
  row-same (some r) sf sa = lists_account-same r.accounts sf sa

  route_allows-same :
      (model : Option Bytes) {f g : Fleet F} {a b : Account F}
      → SameFleet f g
      → SameAccount a b
      → route_allows g b model ≡ route_allows f a model
  unfolding route_allows route_for
  route_allows-same none sf sa = refl
  route_allows-same (some m) {f} (same_fleet accounts current es) sa =
      row-same (route_for f m) {f = f} (same_fleet accounts current es) sa

module _ {F : Type 0} ⦃fl : Float F⦄ where
  capped_bucket-same :
      (model : Option Bytes) {f g : Fleet F} {a b : Account F}
      → SameFleet f g
      → SameAccount a b
      → capped_bucket g b model ≡ capped_bucket f a model
  unfolding capped_bucket weekly_key_for route_for
  capped_bucket-same none (same_fleet accounts current es) (same b p r g q) = refl
  capped_bucket-same (some m) (same_fleet accounts current es) (same b p r g q) = refl

  near_quota-same :
      (model : Option Bytes) {f g : Fleet F} {a b : Account F}
      → SameFleet f g
      → SameAccount a b
      → near_quota g b model ≡ near_quota f a model
  unfolding near_quota weekly_key_for route_for
  near_quota-same none (same_fleet accounts current es) (same b p r g q) = refl
  near_quota-same (some m) (same_fleet accounts current es) (same b p r g q) = refl

module _ {F : Type 0} ⦃fl : Float F⦄ ⦃pf : Platform⦄ where
  upstream_for-same :
      {f g : Fleet F} {a b : Account F}
      → SameFleet f g
      → SameAccount a b
      → upstream_for b g.default_upstream ≡ upstream_for a f.default_upstream
  unfolding upstream_for
  upstream_for-same (same_fleet accounts current es) (same b p r g q) = refl

  -- Notes change no reason for being unavailable.
  pub unavailable-same :
      (model advisor : Option Bytes) (provider : Option Provider) (now : ℤ) {f g : Fleet F}
      {a b : Account F}
      → SameFleet f g
      → SameAccount a b
      → unavailable_reason_for g b model advisor provider now
        ≡ unavailable_reason_for f a model advisor provider now
  unfolding unavailable_reason_for
  unavailable-same model advisor provider now {f} {a} (same_fleet accounts current es)
        (same b p r g q) =
      let sf : SameFleet f _ = same_fleet accounts current es in
      let sa : SameAccount a _ = same b p r g q in
      rw (
        route_allows-same model sf sa,
        route_allows-same advisor sf sa,
        capped_bucket-same model sf sa,
        capped_bucket-same advisor sf sa,
        near_quota-same model sf sa,
        near_quota-same advisor sf sa,
        upstream_for-same sf sa,
      )

  pub available-same :
      (req : SelectRequest) (now : ℤ) {f g : Fleet F} {a b : Account F}
      → SameFleet f g
      → SameAccount a b
      → is_available_for g b req now ≡ is_available_for f a req now
  unfolding is_available_for
  available-same req now sf sa =
      ap is_none (unavailable-same req.model req.advisor_model req.provider now sf sa)

module _ {F : Type 0} where
  begin_ramp-same :
      (id : String) (now : ℤ) {f g : Fleet F} → SameFleet f g → SameFleet f (begin_ramp id now g)
  unfolding begin_ramp
  begin_ramp-same id now =
      account_mut-same id _
        (λ a. same a.rollover_baseline a.last_probe_at (some now) a.probing a.requalify)

  start_probing-same :
      (id : String) {f g : Fleet F} → SameFleet f g → SameFleet f (account_mut id start_probing g)
  start_probing-same id = account_mut-same id start_probing (λ a.
      same a.rollover_baseline a.last_probe_at a.ramp_started_at
        (is_none a.quota.unified7d.reset_at) a.requalify)

  -- Either branch of a test.
  pub if-same :
      (t : Bool) {f g h : Fleet F}
      → SameFleet f g
      → SameFleet f h
      → SameFleet f (if t then g else h)
  if-same true now later = now
  if-same false now later = later

  pub set_current-same :
      (id : String) (now : ℤ) (scoped : Bool) {f g : Fleet F}
      → SameFleet f g
      → SameFleet f (set_current id now scoped g)
  unfolding set_current
  set_current-same id now scoped {f} {g} sf =
      let moved : SameFleet f (if scoped then g else record g { current = some id }) =
        if-same scoped sf (current-same (some id) sf) in
      if-same (is_text id g.current) moved (start_probing-same id (begin_ramp-same id now moved))

  if-SameAccount :
      (t : Bool) {a b : Account F} → SameAccount a b → SameAccount a (if t then b else a)
  if-SameAccount true e = e
  if-SameAccount false {a} e = SameAccount-refl a

  pub ramp_if_cold-same :
      (id : String) (now : ℤ) {f g : Fleet F} → SameFleet f g → SameFleet f (ramp_if_cold id now g)
  unfolding ramp_if_cold
  ramp_if_cold-same id now = account_mut-same id _ (λ a.
      if-SameAccount _ (same a.rollover_baseline a.last_probe_at (some now) a.probing a.requalify))

  baseline-same :
      (key : String) (a : Account F) (r : Option ℤ)
      → SameAccount a (elim r [
        | none ↦ a
        | some r ↦ record a { rollover_baseline = insert key r a.rollover_baseline }
      ])
  baseline-same key a none = SameAccount-refl a
  baseline-same key a (some r) =
      same (insert key r a.rollover_baseline) a.last_probe_at a.ramp_started_at a.probing
        a.requalify

  pub note_baseline-same :
      (id : String) (model : Option Bytes) {f g : Fleet F}
      → SameFleet f g
      → SameFleet f (note_baseline id model g)
  unfolding note_baseline
  note_baseline-same id model {f} {g} sf =
      if-same (g.expiry.enabled && g.expiry.preempt)
        (account_mut-same id _ (λ a. baseline-same (weekly_key_for g model) a _) sf) sf

  pub requalify-same :
      (id : String) {f g : Fleet F}
      → SameFleet f g
      → SameFleet f (account_mut id (λ a. record a { requalify = false }) g)
  requalify-same id =
      account_mut-same id _
        (λ a. same a.rollover_baseline a.last_probe_at a.ramp_started_at a.probing false)

  pub probed-same :
      (id : String) (now : ℤ) {f g : Fleet F}
      → SameFleet f g
      → SameFleet f (account_mut id (λ a. record a { last_probe_at = some now }) g)
  probed-same id now =
      account_mut-same id _
        (λ a. same a.rollover_baseline (some now) a.ramp_started_at a.probing a.requalify)
