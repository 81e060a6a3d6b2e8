-- ===== src/Fleet/Admission/Slots.antt =====
-- src/manager.rs: the guards `Slot` and `Open`, and the counts that they hold.
use corrall.Prelude.{
  ℕ, ◌+◌, ◌-◌, ◌%◌, ◌^◌, ◌<◌, String, ◌≡◌, refl, subst, ap, Bool, true, false, not, List, [], ◌∷◌,
  map, Option, none, some, All, arith, ltb, leb, if◌then◌else◌, ◌==◌, Option-cases, inl, inr, find,
}
use corrall.Prelude.Int.{ℤ, pos_part, sub_i64}
use corrall.Config.{StormRamp}
use corrall.Fleet.{Account, Fleet, account, account_mut, modify_first, has_id}
use corrall.Fleet.Admission.{
  admit_account, ramp_cap, try_admit, release, open_request, close_request, count_in,
}

module _ {A : Type 0} (p : A → Bool) (f g : A → A) where
  -- A change that keeps the test is undone where it was made.
  modify_first-undo :
      (xs : List A)
      → ((a : A) → p (f a) ≡ p a)
      → All (λ a. g (f a) ≡ a) xs
      → modify_first p g (modify_first p f xs) ≡ xs
  unfolding modify_first
  modify_first-undo [] keeps undo = refl
  modify_first-undo (x ∷ xs) keeps (back, undo) = go (p x) refl (modify_first-undo xs keeps undo)
    where
      go :
          (t : Bool)
          → p x ≡ t
          → modify_first p g (modify_first p f xs) ≡ xs
          → modify_first p g (if t then f x ∷ xs else x ∷ modify_first p f xs) ≡ x ∷ xs
      go true e rest = rw (keeps x, e, back)
      go false e rest = rw (e, rest)

module _ {A B : Type 0} (p : A → Bool) (q : A → B) (g : A → A) where
  -- The same of what `q` reads, where the element that is found becomes `b`.
  modify_first-return :
      (xs : List A) (a b : A)
      → find p xs ≡ some a
      → p b ≡ true
      → q (g b) ≡ q a
      → map q (modify_first p g (modify_first p (λ x. b) xs)) ≡ map q xs
  unfolding modify_first
  modify_first-return [] a b found here_too back = refl
  modify_first-return (x ∷ xs) a b found here_too back =
      go (p x) refl found (λ h. modify_first-return xs a b h here_too back)
    where
      go :
          (t : Bool)
          → p x ≡ t
          → (if t then some x else find p xs) ≡ some a
          → (find p xs ≡ some a → map q (modify_first p g (modify_first p (λ y. b) xs)) ≡ map q xs)
          → map q (modify_first p g (if t then b ∷ xs else x ∷ modify_first p (λ y. b) xs))
            ≡ q x ∷ map q xs
      go true e h rest = let same : x ≡ a = cc (h) in rw (here_too, back, same)
      go false e h rest = rw (e, rest h)

module _ {F : Type 0} where
  -- Every count leaves room for one more in its `u32`.
  abbrev pub HasRoom : Account F → Type 0
  HasRoom a = (a.in_flight + 1 < 2 ^ 32) × (a.open_requests + 1 < 2 ^ 32)

  abbrev pub HaveRoom : Fleet F → Type 0
  HaveRoom f = All HasRoom f.accounts

  -- An open request that is closed leaves no trace.
  close_request-open_request :
      (id : String) (f : Fleet F) → HaveRoom f → close_request id (open_request id f) ≡ f
  unfolding close_request open_request account_mut
  close_request-open_request id f room =
      ap (λ v. record f { accounts = v })
        (modify_first-undo (has_id id) _ _ f.accounts (λ a. refl) (undone f.accounts room))
    where
      undone :
          (v : List (Account F))
          → All HasRoom v
          → All
              (λ (a : Account F).
                record a { open_requests = (a.open_requests + 1) % 2 ^ 32 - 1 } ≡ a)
              v
      undone [] room = tt
      undone (a ∷ v) ((h, h'), room) =
          let back : (a.open_requests + 1) % 2 ^ 32 - 1 ≡ a.open_requests = omega arith in
          (ap (λ n. record a { open_requests = n }) back, undone v room)

  -- What the accounts carry: their ids and the requests in flight.
  abbrev pub flight : Account F → String × ℕ
  flight a = (a.id, a.in_flight)

  -- An admitted account has one more in flight, and its ramp may have ended.
  admitted-form :
      (storm : StormRamp) (now : ℤ) (a b : Account F)
      → admit_account storm now a ≡ some b
      → (r : Option ℤ) × (record a { ramp_started_at = r; in_flight = (a.in_flight + 1) % 2 ^ 32 }
          ≡ b)
  unfolding admit_account
  admitted-form storm now a b h =
      go storm.enabled a.ramp_started_at (λ s. leb storm.window_ms (pos_part (sub_i64 now s)))
        (λ s. ltb a.in_flight (ramp_cap storm (pos_part (sub_i64 now s)))) h
    where
      go :
          (enabled : Bool) (ramp : Option ℤ) (over under : ℤ → Bool)
          → (if not enabled then some (count_in a) else elim ramp [
            | none ↦ some (count_in a)
            | some s ↦
                if over s
                then some (count_in (record a { ramp_started_at = none }))
                else if under s
                then some (count_in a)
                else none
          ])
            ≡ some b
          → (r : Option ℤ) × (record a {
            ramp_started_at = r;
            in_flight = (a.in_flight + 1) % 2 ^ 32;
          }
              ≡ b)
      go false ramp over under h = (a.ramp_started_at, cc h)
      go true none over under h = (a.ramp_started_at, cc h)
      go true (some s) over under h = ended (over s) (under s) h
        where
          ended :
              (over under : Bool)
              → (if over
                  then some (count_in (record a { ramp_started_at = none }))
                  else if under
                  then some (count_in a)
                  else none)
                ≡ some b
              → (r : Option ℤ) × (record a {
                ramp_started_at = r;
                in_flight = (a.in_flight + 1) % 2 ^ 32;
              }
                  ≡ b)
          ended true under h = (none, cc h)
          ended false true h = (a.ramp_started_at, cc h)
          ended false false h = absurd (cc h)

  find-room :
      (id : String) (v : List (Account F)) (a : Account F)
      → All HasRoom v
      → find (has_id id) v ≡ some a
      → (a.in_flight + 1 < 2 ^ 32) × ((a.id == id) ≡ true)
  find-room id [] a room h = absurd (cc h)
  find-room id (x ∷ v) a (fits, room) h = go (x.id == id) refl h (find-room id v a room)
    where
      go :
          (t : Bool)
          → (x.id == id) ≡ t
          → (if t then some x else find (has_id id) v) ≡ some a
          → (find (has_id id) v ≡ some a → (a.in_flight + 1 < 2 ^ 32) × ((a.id == id) ≡ true))
          → (a.in_flight + 1 < 2 ^ 32) × ((a.id == id) ≡ true)
      go true e h rest =
          let same : x ≡ a = cc (h) in
          subst (λ y. (y.in_flight + 1 < 2 ^ 32) × ((y.id == id) ≡ true)) same (fits.0, e)
      go false e h rest = rest h

  pub modify_first-none :
      (p : Account F → Bool) (h : Account F → Account F) (v : List (Account F))
      → find p v ≡ none
      → modify_first p h v ≡ v
  unfolding modify_first
  modify_first-none p h [] e = refl
  modify_first-none p h (x ∷ v) e = go (p x) e (modify_first-none p h v)
    where
      go :
          (t : Bool)
          → (if t then some x else find p v) ≡ none
          → (find p v ≡ none → modify_first p h v ≡ v)
          → (if t then h x ∷ v else x ∷ modify_first p h v) ≡ x ∷ v
      go true e rest = absurd (cc e)
      go false e rest = rw (rest e)

  abbrev drop_slot : Account F → Account F
  drop_slot a = record a { in_flight = a.in_flight - 1 }

  release-slot :
      (id : String) (now : ℤ) (f : Fleet F) (a b : Account F)
      → HaveRoom f
      → find (has_id id) f.accounts ≡ some a
      → admit_account f.storm now a ≡ some b
      → map flight (release id (account_mut id (λ x. b) f)).accounts ≡ map flight f.accounts
  unfolding release account_mut
  release-slot id now f a b room e e' =
      let (fits, named) = find-room id f.accounts a room e in
      let (r, form) = admitted-form f.storm now a b e' in
      let back : (a.in_flight + 1) % 2 ^ 32 - 1 ≡ a.in_flight = omega (arith, fits) in
      modify_first-return (has_id id) flight drop_slot f.accounts a b e
        (subst (λ (x : Account F). (x.id == id) ≡ true) form named)
        (subst (λ (x : Account F). flight (drop_slot x) ≡ flight a) form (ap (λ n. (a.id, n)) back))

  release-nothing :
      (id : String) (f : Fleet F)
      → find (has_id id) f.accounts ≡ none
      → map flight (release id f).accounts ≡ map flight f.accounts
  unfolding release account_mut
  release-nothing id f e = ap (map flight) (modify_first-none (has_id id) drop_slot f.accounts e)

  -- A slot that is dropped gives its place back: where every count has room for one more, no
  -- account has more or fewer requests in flight than before the request was admitted.
  pub release-try_admit :
      (id : String) (now : ℤ) (f : Fleet F)
      → HaveRoom f
      → (try_admit id now f).1 ≡ true
      → map flight (release id (try_admit id now f).0).accounts ≡ map flight f.accounts
  unfolding try_admit account
  release-try_admit id now f room = elim (Option-cases (find (has_id id) f.accounts)) [
    | inl e ↦ rw (try_admit, account, e) (λ h. release-nothing id f e)
    | inr (a, e) ↦ elim (Option-cases (admit_account f.storm now a)) [
      | inl e' ↦ rw (try_admit, account, e, e') (λ h. absurd (cc h))
      | inr (b, e') ↦ rw (try_admit, account, e, e') (λ h. release-slot id now f a b room e e')
    ]
  ]
