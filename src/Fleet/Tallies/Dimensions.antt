-- ===== src/Fleet/Tallies/Dimensions.antt =====
-- src/manager.rs: the size of the tables of the usage dimensions.
use mathlib.Core.Option
use corrall.Prelude.{
  suc, ◌≤◌, String, ◌≡◌, refl, Bool, true, false, ◌&&◌, ◌||◌, List, [], ◌∷◌, Option, none, some,
  arith, ltb, leb, length, ◌==◌, eq_refl, Bool-cases, Option-cases, inl, inr, and_true,
}
use corrall.Prelude.Maps.{
  Map, lookup, insert_sorted, update, has_key, length-update, lookup-update, lookup-insert_sorted,
}
use corrall.Prelude.Int.{ℤ}
use corrall.Prelude.Bytes.{Bytes}
use corrall.Prelude.Json.{Json}
use corrall.Fleet.{Fleet, Usage, account_mut}
use corrall.Fleet.Tallies.{
  dimension_max_values, dimension_overflow_key, no_usage, tally, dimension_key, add_dimension,
  add_dimensions, add_request, record_token_usage_dims,
}

-- At most 500 values, and one more table entry only for the key of all others.
abbrev pub is_small : Map Usage → Bool
is_small table =
    leb (length table) dimension_max_values
    || (leb (length table) (suc dimension_max_values) && has_key dimension_overflow_key table)

length-insert_sorted-le :
    {V : Type 0} (k : String) (v : V) (m : Map V) → length (insert_sorted k v m) ≤ suc (length m)
unfolding insert_sorted
length-insert_sorted-le k v [] = omega arith
length-insert_sorted-le k v ((j, w) ∷ m) = ground (arith, length-insert_sorted-le k v m)

tally-update :
    (c : Usage → Usage) (k : String) (t : Map Usage) (u : Usage)
    → lookup k t ≡ some u
    → tally c k t ≡ update k c t
unfolding tally
tally-update c k t u e = rw (tally, e)

tally-insert :
    (c : Usage → Usage) (k : String) (t : Map Usage)
    → lookup k t ≡ none
    → tally c k t ≡ insert_sorted k (c no_usage) t
unfolding tally
tally-insert c k t e = rw (tally, e)

tally-known :
    (c : Usage → Usage) (k : String) (t : Map Usage)
    → has_key k t ≡ true
    → length (tally c k t) ≡ length t
tally-known c k t h = elim (Option-cases (lookup k t)) [
  | inl e ↦ absurd (ground arith)
  | inr (u, e) ↦ rw (tally-update c k t u e) (length-update k c t)
]

tally-new :
    (c : Usage → Usage) (k : String) (t : Map Usage)
    → has_key k t ≡ false
    → length (tally c k t) ≤ suc (length t)
tally-new c k t h = elim (Option-cases (lookup k t)) [
  | inl e ↦ rw (tally-insert c k t e) (length-insert_sorted-le k (c no_usage) t)
  | inr (u, e) ↦ absurd (ground arith)
]

tally-has :
    (c : Usage → Usage) (k j : String) (t : Map Usage)
    → has_key j t ≡ true
    → has_key j (tally c k t) ≡ true
tally-has c k j t h = elim (Option-cases (lookup k t)) [
  | inl e ↦
      rw (tally-insert c k t e)
        (let after = lookup-insert_sorted k j (c no_usage) t in ground arith)
  | inr (u, e) ↦ rw (tally-update c k t u e) (let after = lookup-update k j c t in ground arith)
]

tally_self : (c : Usage → Usage) (k : String) (t : Map Usage) → has_key k (tally c k t) ≡ true
tally_self c k t = elim (Option-cases (lookup k t)) [
  | inl e ↦
      rw (tally-insert c k t e) (
        let after = lookup-insert_sorted k k (c no_usage) t in let same = eq_refl k in ground arith)
  | inr (u, e) ↦
      rw (tally-update c k t u e)
        (let after = lookup-update k k c t in let same = eq_refl k in ground arith)
]

-- A key that is there, or one more while there is room.
small_known :
    (c : Usage → Usage) (k : String) (t : Map Usage)
    → is_small t ≡ true
    → has_key k t ≡ true
    → is_small (tally c k t) ≡ true
small_known c k t h known =
    let same = tally-known c k t known in
    let kept = tally-has c k dimension_overflow_key t in ground arith

small_new :
    (c : Usage → Usage) (k : String) (t : Map Usage)
    → ltb (length t) dimension_max_values ≡ true
    → has_key k t ≡ false
    → is_small (tally c k t) ≡ true
small_new c k t room new = let more = tally-new c k t new in ground arith

small_overflow :
    (c : Usage → Usage) (t : Map Usage)
    → is_small t ≡ true
    → has_key dimension_overflow_key t ≡ false
    → is_small (tally c dimension_overflow_key t) ≡ true
small_overflow c t h new =
    let more = tally-new c dimension_overflow_key t new in
    let there = tally_self c dimension_overflow_key t in ground arith

-- One more value leaves a small table small.
pub add_dimension-small :
    (c : Usage → Usage) (value : String) (t : Map Usage)
    → is_small t ≡ true
    → is_small (add_dimension c value t) ≡ true
unfolding add_dimension dimension_key
add_dimension-small c value t h = elim (Bool-cases (has_key value t)) [
  | inl known ↦ rw (known) (small_known c value t h known)
  | inr new ↦ elim (Bool-cases (ltb (length t) dimension_max_values)) [
    | inl room ↦ rw (new, room) (small_new c value t room new)
    | inr full ↦ elim (Bool-cases (has_key dimension_overflow_key t)) [
      | inl there ↦ rw (new, full) (small_known c dimension_overflow_key t h there)
      | inr missing ↦ rw (new, full) (small_overflow c t h missing)
    ]
  ]
]

-- Every table of the dimensions is small.
abbrev pub are_small : Map (Map Usage) → Bool
are_small [] = true
are_small ((dim, table) ∷ tables) = is_small table && are_small tables

lookup-small :
    (dim : String) (tables : Map (Map Usage))
    → are_small tables ≡ true
    → is_small (Option.get_or (lookup dim tables) []) ≡ true
unfolding lookup
lookup-small dim [] h = refl
lookup-small dim ((d, table) ∷ tables) h = elim (Bool-cases (d == dim)) [
  | inl e ↦ rw (e) (ground arith)
  | inr e ↦ rw (e) (lookup-small dim tables (ground arith))
]

insert_sorted-small :
    (dim : String) (table : Map Usage) (tables : Map (Map Usage))
    → is_small table ≡ true
    → are_small tables ≡ true
    → are_small (insert_sorted dim table tables) ≡ true
unfolding insert_sorted
insert_sorted-small dim table [] h h' = and_true (is_small table) true h refl
insert_sorted-small dim table ((d, t) ∷ tables) h h' =
    ground (arith, insert_sorted-small dim table tables h)

add_dimensions-small :
    (c : Usage → Usage) (dims : List (String × String)) (tables : Map (Map Usage))
    → are_small tables ≡ true
    → are_small (add_dimensions c dims tables) ≡ true
unfolding add_dimensions
add_dimensions-small c [] tables h = h
add_dimensions-small c ((dim, value) ∷ dims) tables h =
    add_dimensions-small c dims _ (
      insert_sorted-small dim _ tables (add_dimension-small c value _ (lookup-small dim tables h))
        h)

module _ {F : Type 0} where
  -- No table of a usage dimension ever holds more than 500 values and the one key for the others,
  -- whatever dimensions and values the report carries: tables that are that small stay so.
  pub record_token_usage_dims-small :
      (id : String) (session client : Option String) (dims : List (String × String))
      (model : Option Bytes) (usage : Json F) (now : ℤ) (stamp : String) (f : Fleet F)
      → are_small f.dimension_usage ≡ true
      → are_small
          (record_token_usage_dims id session client dims model usage now stamp f).dimension_usage
        ≡ true
  unfolding record_token_usage_dims account_mut
  record_token_usage_dims-small id session client dims model usage now stamp f h =
      add_dimensions-small (add_request usage stamp) dims f.dimension_usage h
