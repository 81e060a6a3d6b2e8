-- ===== src/Prelude/Maps.antt =====
-- `HashMap<String, V>` and `BTreeMap<String, V>` as association lists. The order of a list stands
-- for the table's order of iteration; a sorted map is built by `insert_sorted`.
pub mod Unique
use mathlib.Core.Path.{◌≡◌, refl}
use mathlib.Core.Bool.{Bool, true, false}
use mathlib.Core.Option.{Option, none, some}
use mathlib.Core.List.{List, [], ◌∷◌}
use Prim.Native.Nat.{suc, ◌≤◌, compare, Ordering}
use Prim.Native.String.{String}
use native.Mathlib.Omega.{arith}
use text.Mathlib.Text.{◌==◌}
use text.Mathlib.TextEquality.{eq_iff}
use corrall.Prelude.Tests.{if◌then◌else◌}
use corrall.Prelude.Lists.{length}
use corrall.Prelude.Bytes.{Bytes, codes}

abbrev pub Map {ℓ} : Type ℓ → Type ℓ
Map V = List (String × V)

module _ {ℓ} {V : Type ℓ} where
  unfoldable pub lookup : String → Map V → Option V
  lookup k [] = none
  lookup k ((j, v) ∷ m) = if j == k then some v else lookup k m

  -- A known key keeps its place, a new one goes to the end.
  unfoldable pub insert : String → V → Map V → Map V
  insert k v [] = (k, v) ∷ []
  insert k v ((j, w) ∷ m) = if j == k then (k, v) ∷ m else (j, w) ∷ insert k v m

  unfoldable pub remove : String → Map V → Map V
  remove k [] = []
  remove k ((j, v) ∷ m) = let rest = remove k m in if j == k then rest else (j, v) ∷ rest

  -- `get_mut` with a change to the value.
  unfoldable pub update : String → (V → V) → Map V → Map V
  update k f [] = []
  update k f ((j, v) ∷ m) = if j == k then (j, f v) ∷ m else (j, v) ∷ update k f m

  abbrev pub has_key : String → Map V → Bool
  has_key k m = elim (lookup k m) [ none ↦ false | some v ↦ true ]

  pub lookup-insert :
      (key sought : String) (value : V) (table : Map V)
      → lookup sought (insert key value table)
        ≡ (if key == sought then some value else lookup sought table)
  unfolding insert lookup
  lookup-insert key sought value [] = refl
  lookup-insert key sought value ((first, old) ∷ table) =
      let rest = lookup-insert key sought value table in
      ground (arith, rest, eq_iff first key, eq_iff first sought, eq_iff key sought)

  pub lookup-remove :
      (k j : String) (m : Map V) → lookup j (remove k m) ≡ (if k == j then none else lookup j m)
  unfolding lookup remove
  lookup-remove k j [] = ground arith
  lookup-remove k j ((i, w) ∷ m) =
      ground (arith, eq_iff k j, eq_iff i k, eq_iff i j, lookup-remove k j m)

  pub lookup-update :
      (k j : String) (f : V → V) (m : Map V)
      → lookup j (update k f m)
        ≡ (if k == j then elim (lookup j m) [ none ↦ none | some v ↦ some (f v) ] else lookup j m)
  unfolding lookup update
  lookup-update k j f [] = ground arith
  lookup-update k j f ((i, w) ∷ m) =
      ground (arith, eq_iff k j, eq_iff i k, eq_iff i j, lookup-update k j f m)

  pub length-update : (k : String) (f : V → V) (m : Map V) → length (update k f m) ≡ length m
  unfolding update
  length-update k f [] = refl
  length-update k f ((i, w) ∷ m) = ground (arith, length-update k f m)

  pub length-insert :
      (k : String) (v : V) (m : Map V)
      → length (insert k v m) ≡ (if has_key k m then length m else suc (length m))
  unfolding insert lookup
  length-insert k v [] = refl
  length-insert k v ((i, w) ∷ m) = ground (arith, length-insert k v m)

  pub length-remove-le : (k : String) (m : Map V) → length (remove k m) ≤ length m
  unfolding remove
  length-remove-le k [] = omega arith
  length-remove-le k ((i, w) ∷ m) = ground (arith, length-remove-le k m)

  -- Removing a key that is there makes room.
  pub length-remove-lt :
      (k : String) (m : Map V) → has_key k m ≡ true → suc (length (remove k m)) ≤ length m
  unfolding remove lookup
  length-remove-lt k [] h = absurd (ground arith)
  length-remove-lt k ((i, w) ∷ m) h = ground (arith, length-remove-le k m, length-remove-lt k m)

-- The order of texts by code point, which is that of their UTF-8 bytes.
unfoldable pub codes_before : Bytes → Bytes → Bool
codes_before [] [] = false
codes_before [] (b ∷ t) = true
codes_before (a ∷ s) [] = false
codes_before (a ∷ s) (b ∷ t) =
    let rest = codes_before s t in
    elim (compare a b) [ Ordering.lt ↦ true | Ordering.eq ↦ rest | Ordering.gt ↦ false ]

module _ {ℓ} {V : Type ℓ} where
  -- `BTreeMap::insert`
  unfoldable pub insert_sorted : String → V → Map V → Map V
  unfolding codes_before
  insert_sorted k v [] = (k, v) ∷ []
  insert_sorted k v ((j, w) ∷ m) =
      let rest = insert_sorted k v m in
      if j == k
      then (k, v) ∷ m
      else if codes_before (codes k) (codes j)
      then (k, v) ∷ (j, w) ∷ m
      else (j, w) ∷ rest

  pub lookup-insert_sorted :
      (k j : String) (v : V) (m : Map V)
      → lookup j (insert_sorted k v m) ≡ (if k == j then some v else lookup j m)
  unfolding lookup insert_sorted
  lookup-insert_sorted k j v [] = refl
  lookup-insert_sorted k j v ((i, w) ∷ m) =
      ground (arith, eq_iff k j, eq_iff i k, eq_iff i j, lookup-insert_sorted k j v m)
