-- ===== src/Fleet/Sync/Learned.antt =====
-- What a reload (src/manager.rs) keeps of an account that runs on.
use mathlib.Core.Option
use corrall.Prelude.{
  ℕ, ◌+◌, String, ◌≡◌, refl, sym, ◌∙◌, ap, Bool, true, false, not, ◌||◌, List, [], ◌∷◌, map, Option,
  none, some, all, any, find, arith, if◌then◌else◌, ◌==◌, Bool-cases, inl, inr, eq_iff, subst,
}
use corrall.Prelude.Float.{Float}
use corrall.Config.{AccountConfig, is_text}
use corrall.Config.Pools.{Config, pool_or_default}
use corrall.Fleet.{Account, Fleet, has_id, account, is_error}
use corrall.Fleet.Eligibility.{is_none}
use corrall.Fleet.Logins.{Files, apply_credentials, from_config}
use corrall.Fleet.Sync.{
  sync_config, sync_accounts, renewed, take_out, take_settings, take_credential, lift_error,
  is_newer, forget_baselines, put_renewed, put_new, Synced,
}

module _ {F : Type 0} where
  -- The same account, with what was learned of its quota and its load.
  pub record SameLearned (a b : Account F) : Type 0 where
    pub same_id : b.id ≡ a.id
    pub same_quota : b.quota ≡ a.quota
    pub same_usage : b.usage ≡ a.usage
    pub same_hold : b.rate_limited_until ≡ a.rate_limited_until
    pub same_flight : b.in_flight ≡ a.in_flight
    pub same_open : b.open_requests ≡ a.open_requests

  SameLearned-refl : (a : Account F) → SameLearned a a
  SameLearned-refl a = record {
    same_id = refl;
    same_quota = refl;
    same_usage = refl;
    same_hold = refl;
    same_flight = refl;
    same_open = refl;
  }

  SameLearned-trans : {a b c : Account F} → SameLearned a b → SameLearned b c → SameLearned a c
  SameLearned-trans h k = record {
    same_id = k.same_id ∙ h.same_id;
    same_quota = k.same_quota ∙ h.same_quota;
    same_usage = k.same_usage ∙ h.same_usage;
    same_hold = k.same_hold ∙ h.same_hold;
    same_flight = k.same_flight ∙ h.same_flight;
    same_open = k.same_open ∙ h.same_open;
  }

  if-Learned :
      (t : Bool) (a b c : Account F)
      → SameLearned a b
      → SameLearned a c
      → SameLearned a (if t then b else c)
  if-Learned true a b c h k = h
  if-Learned false a b c h k = k

  kept :
      (a b : Account F)
      → b.id ≡ a.id
      → b.quota ≡ a.quota
      → b.usage ≡ a.usage
      → b.rate_limited_until ≡ a.rate_limited_until
      → b.in_flight ≡ a.in_flight
      → b.open_requests ≡ a.open_requests
      → SameLearned a b
  kept a b h h' h'' k k' k'' = record {
    same_id = h;
    same_quota = h';
    same_usage = h'';
    same_hold = k;
    same_flight = k';
    same_open = k'';
  }

  lift_error-Learned : (a b : Account F) → SameLearned a b → SameLearned a (lift_error b)
  lift_error-Learned a b h =
      if-Learned (is_error b.status) a _ b
        (SameLearned-trans h (kept b _ refl refl refl refl refl refl)) h

  pub renewed-Learned :
      (files : Files) (c : AccountConfig F) (a : Account F) → SameLearned a (renewed files c a).0
  unfolding renewed
  renewed-Learned files c a =
      let set = take_settings c a in
      let fresh = apply_credentials files c set in
      let settings : SameLearned a set = kept a _ refl refl refl refl refl refl in
      let taken : SameLearned a (if is_newer fresh set then take_credential fresh set else set) =
        if-Learned (is_newer fresh set) a _ set
          (lift_error-Learned a _ (kept a _ refl refl refl refl refl refl)) settings in
      if-Learned _ a _ _ (lift_error-Learned a _ taken) taken

  take_out-find :
      (id : String) (v : List (Account F)) (a : Account F)
      → find (has_id id) v ≡ some a
      → (w : List (Account F)) × (take_out id v ≡ some (a, w))
  unfolding take_out
  take_out-find id [] a h = absurd (cc h)
  take_out-find id (b ∷ v) a h = elim (Bool-cases (b.id == id)) [
    | inl here ↦ (v, ground arith)
    | inr there ↦
        let (w, rest) = take_out-find id v a (ground arith) in (b ∷ w, rw (there, rest) refl)
  ]

  find-take_out :
      (id other : String) (v w : List (Account F)) (b : Account F)
      → take_out other v ≡ some (b, w)
      → (other == id) ≡ false
      → (find (has_id id) w ≡ find (has_id id) v) × (b.id ≡ other)
  unfolding take_out
  find-take_out id other [] w b h apart = absurd (cc h)
  find-take_out id other (x ∷ v) w b h apart =
      go (x.id == other) (take_out other v) refl h
        (λ w' b' h'. find-take_out id other v w' b' h' apart)
    where
      go :
          (t : Bool) (o : Option (Account F × List (Account F)))
          → (x.id == other) ≡ t
          → (if t then some (x, v) else elim o as (λ _. Option (Account F × List (Account F))) [
            | none ↦ none
            | some (y, u) ↦ some (y, x ∷ u)
          ])
            ≡ some (b, w)
          → ((w' : List (Account F)) (b' : Account F)
              → o ≡ some (b', w')
              → (find (has_id id) w' ≡ find (has_id id) v) × (b'.id ≡ other))
          → (find (has_id id) w ≡ (if x.id == id then some x else find (has_id id) v))
            × (b.id ≡ other)
      go true o e h rest =
          let same : x.id ≡ other = (eq_iff x.id other).0 e in
          let elsewhere : (x.id == id) ≡ false = subst (λ s. (s == id) ≡ false) (sym same) apart in
          let left : v ≡ w = cc h in
          let taken : x ≡ b = cc h in
          (rw (elsewhere, left) refl, ap (λ (y : Account F). y.id) (sym taken) ∙ same)
      go false none e h rest = absurd (cc h)
      go false (some (y, u)) e h rest =
          let left : x ∷ u ≡ w = cc h in
          let taken : y ≡ b = cc h in
          let below = rest u y refl in
          (
            ap (find (has_id id)) (sym left)
                ∙ ap (λ (r : Option (Account F)). if x.id == id then some x else r) below.0,
            ap (λ (y : Account F). y.id) (sym taken) ∙ below.1,
          )

  -- Every entry has an id, and one of them is this one.
  abbrev pub have_ids : List (AccountConfig F) → Bool
  have_ids entries = all (λ (c : AccountConfig F). not (is_none c.id)) entries

  abbrev pub lists_id : String → List (AccountConfig F) → Bool
  lists_id id entries = any (λ (c : AccountConfig F). is_text id c.id) entries

  apply_credentials-id :
      (files : Files) (c : AccountConfig F) (a : Account F)
      → (apply_credentials files c a).id ≡ a.id
  unfolding apply_credentials
  apply_credentials-id files c a = ground arith

  from_config-id :
      (files : Files) (uuid id : String) (c : AccountConfig F)
      → c.id ≡ some id
      → (from_config files uuid c).id ≡ id
  unfolding from_config
  from_config-id files uuid id c h =
      apply_credentials-id files c _ ∙ ap (λ (o : Option String). Option.get_or o uuid) h

  find-passes :
      (p : Account F → Bool) (v : List (Account F)) (a : Account F) → find p v ≡ some a → p a ≡ true
  find-passes p [] a h = absurd (cc h)
  find-passes p (b ∷ v) a h = elim (Bool-cases (p b)) [
    | inl here ↦ let same : b ≡ a = ground arith in subst (λ x. p x ≡ true) same here
    | inr there ↦ find-passes p v a (ground arith)
  ]

  find-first :
      (id : String) (b : Account F) (v : List (Account F))
      → (b.id == id) ≡ true
      → find (has_id id) (b ∷ v) ≡ some b
  find-first id b v h = rw h refl

  find-later :
      (id : String) (b : Account F) (v : List (Account F))
      → (b.id == id) ≡ false
      → find (has_id id) (b ∷ v) ≡ find (has_id id) v
  find-later id b v h = rw h refl

  find-put_new :
      (id : String) (b : Account F) (s : Synced F)
      → (b.id == id) ≡ false
      → find (has_id id) (put_new b s).next ≡ find (has_id id) s.next
  find-put_new id b s h = elim (Bool-cases (is_none b.credential)) [
    | inl unusable ↦ rw unusable refl
    | inr usable ↦ rw usable (find-later id b s.next h)
  ]

  -- What the loop over the entries finds and makes, with the account of one id in sight.
  sync_accounts-Learned :
      (files : Files) (uuid : ℕ → String) (entries : List (AccountConfig F)) (i : ℕ)
      (old : List (Account F)) (id : String) (a : Account F)
      → have_ids entries ≡ true
      → lists_id id entries ≡ true
      → find (has_id id) old ≡ some a
      → (b : Account F) × ((find (has_id id) (sync_accounts files uuid entries i old).next ≡ some b)
          × SameLearned a b)
  unfolding sync_accounts
  sync_accounts-Learned files uuid [] i old id a ided listed found = absurd (cc listed)
  sync_accounts-Learned files uuid (c ∷ entries) i old id a ided listed found =
      look c.id refl (λ v ided' listed' found'.
        sync_accounts-Learned files uuid entries (i + 1) v id a ided' listed' found')
    where
      made : Option (Account F × List (Account F)) → Synced F
      made o = elim o [
        | some (x, others) ↦
            put_renewed (renewed files c x) (sync_accounts files uuid entries (i + 1) others)
        | none ↦
            put_new (from_config files (uuid i) c) (sync_accounts files uuid entries (i + 1) old)
      ]

      other :
          (j : String)
          → (j == id) ≡ false
          → c.id ≡ some j
          → (o : Option (Account F × List (Account F))) → take_out j old ≡ o
          → ((v : List (Account F))
              → find (has_id id) v ≡ some a
              → (b : Account F) × ((find
                      (has_id id)
                      (sync_accounts files uuid entries (i + 1) v).next
                    ≡ some b)
                  × SameLearned a b))
          → (b : Account F) × ((find (has_id id) (made o).next ≡ some b) × SameLearned a b)
      other j apart e none t rest =
          let (b, ih) = rest old found in
          (
            b,
            (
              find-put_new id (from_config files (uuid i) c)
                    (sync_accounts files uuid entries (i + 1) old)
                    (ap (λ k. k == id) (from_config-id files (uuid i) j c e) ∙ apart)
                  ∙ ih.0,
              ih.1,
            ),
          )
      other j apart e (some (x, others)) t rest =
          let facts = find-take_out id j old others x t apart in
          let (b, ih) = rest others (facts.0 ∙ found) in
          (
            b,
            (
              find-later id (renewed files c x).0 _
                    (ap (λ k. k == id) ((renewed-Learned files c x).same_id ∙ facts.1) ∙ apart)
                  ∙ ih.0,
              ih.1,
            ),
          )

      look :
          (o : Option String)
          → c.id ≡ o
          → ((v : List (Account F))
              → have_ids entries ≡ true
              → lists_id id entries ≡ true
              → find (has_id id) v ≡ some a
              → (b : Account F) × ((find
                      (has_id id)
                      (sync_accounts files uuid entries (i + 1) v).next
                    ≡ some b)
                  × SameLearned a b))
          → (b : Account F) × ((find (has_id id) (made (take_out (Option.get_or c.id "") old)).next
                ≡ some b)
              × SameLearned a b)
      look none e rest = absurd (ground arith)
      look (some j) e rest = elim (Bool-cases (j == id)) [
        | inl same ↦
            let key : Option.get_or c.id "" ≡ id =
              ap (λ (o : Option String). Option.get_or o "") e ∙ (eq_iff j id).0 same in
            let (w, taken) = take_out-find id old a found in
            let met : take_out (Option.get_or c.id "") old ≡ some (a, w) =
              ap (λ k. take_out k old) key ∙ taken in
            (
              (renewed files c a).0,
              (
                rw met (
                    find-first id _ _ (
                      ap (λ k. k == id) (renewed-Learned files c a).same_id
                      ∙ find-passes (has_id id) old a found)),
                renewed-Learned files c a,
              ),
            )
        | inr apart ↦
            let key : Option.get_or c.id "" ≡ j =
              ap (λ (o : Option String). Option.get_or o "") e in
            let listed' : lists_id id entries ≡ true = ground arith in
            let ided' : have_ids entries ≡ true = ground arith in
            subst
              (λ k.
                (b : Account F) × ((find (has_id id) (made (take_out k old)).next ≡ some b)
                  × SameLearned a b))
              (sym key)
              (other j apart e (take_out j old) refl (λ v found'. rest v ided' listed' found'))
      ]

  find-forgotten :
      (id : String) (v : List (Account F))
      → find (has_id id) (map (λ (a : Account F). record a { rollover_baseline = [] }) v)
        ≡ Option.map (λ (a : Account F). record a { rollover_baseline = [] }) (find (has_id id) v)
  find-forgotten id [] = refl
  find-forgotten id (a ∷ v) = elim (Bool-cases (a.id == id)) [
    | inl here ↦ rw here refl
    | inr there ↦ rw there (find-forgotten id v)
  ]

  forgotten-Learned :
      (t : Bool) (id : String) (v : List (Account F)) (a : Account F)
      → find (has_id id) v ≡ some a
      → (b : Account F) × ((find
              (has_id id)
              (if t then map (λ (a : Account F). record a { rollover_baseline = [] }) v else v)
            ≡ some b)
          × SameLearned a b)
  forgotten-Learned true id v a h = (
    record a { rollover_baseline = [] },
    (
      find-forgotten id v
          ∙ ap (Option.map (λ (a : Account F). record a { rollover_baseline = [] })) h,
      kept a _ refl refl refl refl refl refl,
    ),
  )
  forgotten-Learned false id v a h = (a, (h, SameLearned-refl a))

module _ {F : Type 0} ⦃fl : Float F⦄ where
  -- An account that the reloaded pool still lists keeps what was learned of it: its quota, its usage,
  -- its hold, and its requests in flight and open. Every entry of the pool must have an id.
  pub sync_config-Learned :
      (files : Files) (uuid : ℕ → String) (cfg : Config F) (pool id : String) (f : Fleet F)
      (a : Account F)
      → account f id ≡ some a
      → have_ids (pool_or_default (some pool) cfg).accounts ≡ true
      → lists_id id (pool_or_default (some pool) cfg).accounts ≡ true
      → (b : Account F) × ((account (sync_config files uuid cfg pool f).0 id ≡ some b)
          × SameLearned a b)
  unfolding sync_config account
  sync_config-Learned files uuid cfg pool id f a found ided listed =
      let p = pool_or_default (some pool) cfg in
      let (a', first) =
        forgotten-Learned (not p.expiry_routing.enabled || not p.expiry_routing.preempt) id
          f.accounts a found in
      let (b, second) =
        sync_accounts-Learned files uuid p.accounts 0 (forget_baselines p.expiry_routing f.accounts)
          id a' ided listed first.0 in
      (b, (second.0, SameLearned-trans first.1 second.1))
