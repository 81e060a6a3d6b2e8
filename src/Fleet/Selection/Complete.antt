-- ===== src/Fleet/Selection/Complete.antt =====
-- src/manager.rs: what a stage of the selection finds where an account may serve.
pub mod Idle
use mathlib.Core.Option
use corrall.Prelude.{
  String, ◌≡◌, ◌≢◌, refl, sym, subst, ap, ◌∙◌, Bool, true, false, not, ◌&&◌, ◌||◌, List, [], ◌∷◌,
  Option, none, some, any, all, keep, find, At, here, there, arith, if◌then◌else◌, ◌==◌, eq_iff,
  eq_refl, Bool-cases, Option-cases, inl, inr, and_true, Ordering,
}
use corrall.Prelude.Int.{ℤ}
use corrall.Prelude.Bytes.{Bytes}
use corrall.Prelude.Float.{Float}
use corrall.Prelude.Sort.{sort_by, insert_by, is_gt}
use corrall.Session.{member, stats}
use corrall.Fleet.{Account, Fleet, Selected, SelectRequest, account, has_id, is_error}
use corrall.Fleet.Upstream.{Platform, upstream_for}
use corrall.Fleet.Eligibility.{
  Reason, other_provider, disabled, no_credential, upstream_refused, first_some, when, is_none,
  is_other, unavailable_reason_for, is_available_for,
}
use corrall.Fleet.Ranking.{
  available, ranked_by_default, ranked_available, compare_default, compare_soonest, band,
}
use corrall.Fleet.Bookkeeping.{
  SameAccount, SameAccounts, nil, cons, SameFleet, same_fleet, SameFleet-refl, At-same, same-At,
  id-same, available-same, set_current-same, note_baseline-same,
}
use corrall.Fleet.Health.Holds.{distinct_ids}
use corrall.Fleet.Select.{
  Selection, chosen, Outcome, or_next, snapshot, serve, serve_id, with_best, first, may_serve,
  move_to, select_best,
}
use corrall.Fleet.Selection.Scope.{serves, ranked-serves}
use corrall.Fleet.Selection.Scope.Stages.{account-At}

module _ {F : Type 0} where
  pub any-At_of :
      (p : Account F → Bool) (v : List (Account F))
      → any p v ≡ true
      → (a : Account F) × (At a v × (p a ≡ true))
  any-At_of p [] h = absurd (cc h)
  any-At_of p (a ∷ v) h = elim (Bool-cases (p a)) [
    | inl e ↦ (a, (here, e))
    | inr e ↦
        let rest : any p v ≡ true = ground arith in
        let (b, found) = any-At_of p v rest in (b, (there found.0, found.1))
  ]

  any_here :
      (p : Account F → Bool) {a : Account F} {v : List (Account F)}
      → At a v
      → p a ≡ true
      → any p v ≡ true
  any_here p here h = ground (arith, h)
  any_here p (there at) h = ground (arith, any_here p at h)

  -- Accounts of one id are one account.
  pub At-unique :
      (v : List (Account F)) {a b : Account F}
      → distinct_ids v ≡ true
      → At a v
      → At b v
      → a.id ≡ b.id
      → a ≡ b
  At-unique [] d at at' e = elim at [ ]
  At-unique (a ∷ v) d here here e = refl
  At-unique (a ∷ v) {b = b} d here (there at') e =
      let hit = any_here (has_id a.id) at' (rw (e, eq_refl b.id) refl) in absurd (ground arith)
  At-unique (b ∷ v) {a = a} d (there at) here e =
      let hit = any_here (has_id b.id) at (rw (e, eq_refl b.id) refl) in absurd (ground arith)
  At-unique (c ∷ v) d (there at) (there at') e = At-unique v (ground arith) at at' e

  pub find-some :
      (p : Account F → Bool) {a : Account F} {v : List (Account F)}
      → At a v
      → p a ≡ true
      → (b : Account F) × (find p v ≡ some b)
  find-some p {a} here h = (a, rw (h) refl)
  find-some p (there {y = y} {xs = v} at) h = go (p y) (find-some p at h)
    where
      go :
          (t : Bool)
          → (b : Account F) × (find p v ≡ some b)
          → (b : Account F) × ((if t then some y else find p v) ≡ some b)
      go true rest = (y, refl)
      go false rest = rest

  insert_by-nonempty :
      (cmp : Account F → Account F → Ordering) (a : Account F) (v : List (Account F))
      → insert_by cmp a v ≢ []
  unfolding insert_by
  insert_by-nonempty cmp a [] h = absurd (cc h)
  insert_by-nonempty cmp a (b ∷ v) h = go (is_gt (cmp a b)) h
    where
      go : (t : Bool) → (if t then b ∷ insert_by cmp a v else a ∷ b ∷ v) ≡ [] → ⊥
      go true h = absurd (cc h)
      go false h = absurd (cc h)

  pub sort_by-empty :
      (cmp : Account F → Account F → Ordering) (v : List (Account F)) → sort_by cmp v ≡ [] → v ≡ []
  unfolding sort_by
  sort_by-empty cmp [] h = refl
  sort_by-empty cmp (a ∷ v) h = absurd (insert_by-nonempty cmp a (sort_by cmp v) h)

  pub keep-empty :
      (p : Account F → Bool) (v : List (Account F)) → keep p v ≡ [] → all (λ a. not (p a)) v ≡ true
  keep-empty p [] h = refl
  keep-empty p (a ∷ v) h = go (p a) h (keep-empty p v)
    where
      go :
          (t : Bool)
          → (if t then a ∷ keep p v else keep p v) ≡ []
          → (keep p v ≡ [] → all (λ a. not (p a)) v ≡ true)
          → (not t && all (λ a. not (p a)) v) ≡ true
      go true h rest = absurd (cc h)
      go false h rest = rest h

module _ {F : Type 0} ⦃fl : Float F⦄ ⦃pf : Platform⦄ where
  -- What is available has a credential and an upstream that takes it.
  pub snapshot-some :
      (f : Fleet F) (a : Account F) (req : SelectRequest) (now : ℤ)
      → is_available_for f a req now ≡ true
      → (s : Selected) × (snapshot f a ≡ some s)
  unfolding is_available_for unavailable_reason_for snapshot
  snapshot-some f a req now h =
      go (is_other req.provider a.provider) a.disabled a.credential
        (upstream_for a f.default_upstream) _ h
    where
      picked : Option String → Option String → Option Selected
      picked up cred = elim up [
        | none ↦ none
        | some upstream ↦ elim cred [
          | none ↦ none
          | some credential ↦ some (record {
            id = a.id;
            name = a.name;
            kind = a.kind;
            provider = a.provider;
            account_id = a.account_id;
            credential = credential;
            account_uuid = a.account_uuid;
            upstream = upstream;
            model_map = a.model_map;
            strip_request_fields = a.strip_request_fields;
          })
        ]
      ]

      go :
          (b₁ b₂ : Bool) (cred up : Option String) (rest : List (Option (Reason F)))
          → is_none (
              first_some (
                when b₁ other_provider
                ∷ when b₂ disabled
                ∷ when (is_none cred) no_credential
                ∷ when (is_none up) upstream_refused
                ∷ rest))
            ≡ true
          → (s : Selected) × (picked up cred ≡ some s)
      go true b₂ cred up rest h = absurd (cc h)
      go false true cred up rest h = absurd (cc h)
      go false false none up rest h = absurd (cc h)
      go false false (some c) none rest h = absurd (cc h)
      go false false (some c) (some u) rest h = (_, refl)
