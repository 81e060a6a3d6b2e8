-- ===== src/Prelude/Sort.antt =====
-- `slice::sort_by`: a stable sort by a comparison. Its result is that of an insertion sort.
use Prim.Native.Nat.{Ordering}
use mathlib.Core.Path.{◌≡◌, refl}
use mathlib.Core.List.{List, [], ◌∷◌, Perm}
use mathlib.Core.List.Perm
use mathlib.Core.Bool.{Bool, true, false, not, ◌&&◌}
use native.Mathlib.Omega.{arith}
use corrall.Prelude.Tests.{if◌then◌else◌}
use corrall.Prelude.Lists.{all}

-- `Ordering::then_with`
abbrev pub then_by : Ordering → Ordering → Ordering
then_by Ordering.lt next = Ordering.lt
then_by Ordering.eq next = next
then_by Ordering.gt next = Ordering.gt

abbrev pub is_gt : Ordering → Bool
is_gt Ordering.lt = false
is_gt Ordering.eq = false
is_gt Ordering.gt = true

abbrev pub is_lt : Ordering → Bool
is_lt Ordering.lt = true
is_lt Ordering.eq = false
is_lt Ordering.gt = false

module _ {ℓ} {A : Type ℓ} where
  unfoldable pub insert_by : (A → A → Ordering) → A → List A → List A
  insert_by cmp x [] = x ∷ []
  insert_by cmp x (y ∷ ys) =
      let later = y ∷ insert_by cmp x ys in if is_gt (cmp x y) then later else x ∷ y ∷ ys

  unfoldable pub sort_by : (A → A → Ordering) → List A → List A
  unfolding insert_by
  sort_by cmp [] = []
  sort_by cmp (x ∷ xs) = insert_by cmp x (sort_by cmp xs)

  insert_by-all :
      (cmp : A → A → Ordering) (p : A → Bool) (x : A) (xs : List A)
      → p x ≡ true
      → all p xs ≡ true
      → all p (insert_by cmp x xs) ≡ true
  unfolding insert_by
  insert_by-all cmp p x [] hx h = ground arith
  insert_by-all cmp p x (y ∷ ys) hx h = ground (arith, insert_by-all cmp p x ys hx)

  -- A test that all elements pass is passed by all of the sorted list.
  pub sort_by-all :
      (cmp : A → A → Ordering) (p : A → Bool) (xs : List A)
      → all p xs ≡ true
      → all p (sort_by cmp xs) ≡ true
  unfolding sort_by
  sort_by-all cmp p [] h = refl
  sort_by-all cmp p (x ∷ xs) h =
      ground (arith, insert_by-all cmp p x (sort_by cmp xs), sort_by-all cmp p xs)

  insert_by-perm :
      (cmp : A → A → Ordering) (x : A) (xs : List A) → Perm (insert_by cmp x xs) (x ∷ xs)
  unfolding insert_by
  insert_by-perm cmp x [] = Perm.rfl
  insert_by-perm cmp x (y ∷ ys) =
      let rest = Perm.trans (Perm.cons y (insert_by-perm cmp x ys)) (Perm.swap x y ys) in
      ground (arith, rest, Perm.refl (x ∷ y ∷ ys))

  pub sort_by-perm : (cmp : A → A → Ordering) (xs : List A) → Perm (sort_by cmp xs) xs
  unfolding sort_by
  sort_by-perm cmp [] = Perm.nil
  sort_by-perm cmp (x ∷ xs) =
      Perm.trans (insert_by-perm cmp x (sort_by cmp xs)) (Perm.cons x (sort_by-perm cmp xs))

  -- `x` comes first: it is not after any of them.
  abbrev pub not_after : (A → A → Ordering) → A → A → Bool
  not_after cmp x y = not (is_gt (cmp x y))

  -- The first element is not after any other.
  abbrev pub leads : (A → A → Bool) → List A → Bool
  leads le [] = true
  leads le (x ∷ xs) = all (le x) xs

  all_from :
      (le : A → A → Bool) (x y : A) (xs : List A)
      → ((x y z : A) → le x y ≡ true → le y z ≡ true → le x z ≡ true)
      → le x y ≡ true
      → all (le y) xs ≡ true
      → all (le x) xs ≡ true
  all_from le x y [] trans h h' = refl
  all_from le x y (z ∷ xs) trans h h' = ground (arith, trans x y z h, all_from le x y xs trans h)

  insert_by-leads :
      (cmp : A → A → Ordering) (le : A → A → Bool) (x : A) (xs : List A)
      → ((x y : A) → is_gt (cmp x y) ≡ false → le x y ≡ true)
      → ((x y : A) → is_gt (cmp x y) ≡ true → le y x ≡ true)
      → ((x y z : A) → le x y ≡ true → le y z ≡ true → le x z ≡ true)
      → leads le xs ≡ true
      → leads le (insert_by cmp x xs) ≡ true
  unfolding insert_by
  insert_by-leads cmp le x [] below above trans h = refl
  insert_by-leads cmp le x (y ∷ ys) below above trans h = go (is_gt (cmp x y)) refl
    where
      go :
          (t : Bool)
          → is_gt (cmp x y) ≡ t
          → leads le (if t then y ∷ insert_by cmp x ys else x ∷ y ∷ ys) ≡ true
      go true e = insert_by-all cmp (le y) x ys (above x y e) h
      go false e =
          let first = below x y e in let rest = all_from le x y ys trans first h in ground arith

  -- Sorting puts first an element that is not after any other, where the comparison refines an
  -- order.
  pub sort_by-leads :
      (cmp : A → A → Ordering) (le : A → A → Bool) (xs : List A)
      → ((x y : A) → is_gt (cmp x y) ≡ false → le x y ≡ true)
      → ((x y : A) → is_gt (cmp x y) ≡ true → le y x ≡ true)
      → ((x y z : A) → le x y ≡ true → le y z ≡ true → le x z ≡ true)
      → leads le (sort_by cmp xs) ≡ true
  unfolding sort_by
  sort_by-leads cmp le [] below above trans = refl
  sort_by-leads cmp le (x ∷ xs) below above trans =
      insert_by-leads cmp le x (sort_by cmp xs) below above trans
        (sort_by-leads cmp le xs below above trans)

  insert_by-all_of :
      (cmp : A → A → Ordering) (p : A → Bool) (x : A) (xs : List A)
      → all p (insert_by cmp x xs) ≡ true
      → (p x && all p xs) ≡ true
  unfolding insert_by
  insert_by-all_of cmp p x [] h = h
  insert_by-all_of cmp p x (y ∷ ys) h = ground (arith, insert_by-all_of cmp p x ys)

  -- What holds of all of the sorted list holds of all of the list.
  pub sort_by-all_of :
      (cmp : A → A → Ordering) (p : A → Bool) (xs : List A)
      → all p (sort_by cmp xs) ≡ true
      → all p xs ≡ true
  unfolding sort_by
  sort_by-all_of cmp p [] h = refl
  sort_by-all_of cmp p (x ∷ xs) h =
      let both = insert_by-all_of cmp p x (sort_by cmp xs) h in
      ground (arith, sort_by-all_of cmp p xs)
