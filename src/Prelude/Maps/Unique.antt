-- ===== src/Prelude/Maps/Unique.antt =====
-- Maps that hold each key once, and what their operations leave alone.
use corrall.Prelude.Lists.{keep, length}
use corrall.Prelude.Maps.{
  Map, lookup, insert, remove, update, lookup-insert, lookup-remove, lookup-update,
}
use Prim.Native.String.{String}
use mathlib.Core.Path.{◌≡◌, refl}
use mathlib.Core.Bool.{Bool, true}
use mathlib.Core.Option.{none, some}
use mathlib.Core.List.{[], ◌∷◌, map}
use native.Mathlib.Omega.{arith}
use text.Mathlib.TextEquality.{eq_iff}

module _ {ℓ} {V : Type ℓ} where
  -- No key stands twice.
  abbrev pub Unique : Map V → Type ℓ
  Unique [] = Unit
  Unique ((k, v) ∷ m) = (lookup k m ≡ none) × Unique m

  pub insert-Unique : (k : String) (v : V) (m : Map V) → Unique m → Unique (insert k v m)
  unfolding insert lookup
  insert-Unique k v [] u = (refl, tt)
  insert-Unique k v ((j, w) ∷ m) u =
      ground (arith, insert-Unique k v m u.1, lookup-insert k j v m, eq_iff j k, eq_iff k j)

  pub remove-Unique : (k : String) (m : Map V) → Unique m → Unique (remove k m)
  unfolding remove lookup
  remove-Unique k [] u = tt
  remove-Unique k ((j, w) ∷ m) u = ground (arith, remove-Unique k m u.1, lookup-remove k j m)

  pub update-Unique : (k : String) (f : V → V) (m : Map V) → Unique m → Unique (update k f m)
  unfolding update lookup
  update-Unique k f [] u = tt
  update-Unique k f ((j, w) ∷ m) u = ground (arith, update-Unique k f m u.1, lookup-update k j f m)

  lookup-keep-none :
      (p : String × V → Bool) (k : String) (m : Map V)
      → lookup k m ≡ none
      → lookup k (keep p m) ≡ none
  unfolding lookup
  lookup-keep-none p k [] h = refl
  lookup-keep-none p k ((j, w) ∷ m) h = ground (arith, lookup-keep-none p k m)

  pub keep-Unique : (p : String × V → Bool) (m : Map V) → Unique m → Unique (keep p m)
  unfolding lookup
  keep-Unique p [] u = tt
  keep-Unique p ((j, w) ∷ m) u = ground (arith, keep-Unique p m u.1, lookup-keep-none p j m u.0)

  -- In a map without repeated keys an entry that passes the test is still found.
  pub lookup-keep :
      (p : String × V → Bool) (k : String) (v : V) (m : Map V)
      → p (k, v) ≡ true
      → lookup k m ≡ some v
      → lookup k (keep p m) ≡ some v
  unfolding lookup
  lookup-keep p k v [] h e = e
  lookup-keep p k v ((j, w) ∷ m) h e = ground (arith, lookup-keep p k v m h, eq_iff j k)

module _ {ℓ} {V : Type ℓ} where
  -- `values_mut`: a change to every value.
  abbrev pub map_values : (V → V) → Map V → Map V
  map_values f m = map (λ (e : String × V). (e.0, f e.1)) m

  pub lookup-map_values :
      (f : V → V) (k : String) (m : Map V)
      → lookup k (map_values f m) ≡ elim (lookup k m) [ none ↦ none | some v ↦ some (f v) ]
  unfolding lookup
  lookup-map_values f k [] = refl
  lookup-map_values f k ((j, w) ∷ m) = ground (arith, lookup-map_values f k m)

  pub map_values-Unique : (f : V → V) (m : Map V) → Unique m → Unique (map_values f m)
  map_values-Unique f [] u = tt
  map_values-Unique f ((j, w) ∷ m) u =
      ground (arith, map_values-Unique f m u.1, lookup-map_values f j m)

  pub length-map_values : (f : V → V) (m : Map V) → length (map_values f m) ≡ length m
  length-map_values f [] = refl
  length-map_values f ((j, w) ∷ m) = ground (arith, length-map_values f m)
