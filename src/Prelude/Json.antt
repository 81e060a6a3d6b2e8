-- ===== src/Prelude/Json.antt =====
-- `serde_json::Value`: the data that the program takes apart, with the accessors that it calls.
use mathlib.Core.Path.{◌≡◌, refl}
use mathlib.Core.Bool.{Bool, true, false}
use mathlib.Core.Option
use mathlib.Core.Option.{Option, none, some}
use mathlib.Core.List.{List, [], ◌∷◌}
use Prim.Native.Nat.{suc, ◌-◌, ◌^◌}
use Prim.Native.String.{String}
use native.Mathlib.Omega.{arith}
use text.Mathlib.Text.{◌==◌}
use corrall.Prelude.Tests.{leb, if◌then◌else◌}
use corrall.Prelude.Int.{ℤ, pos, negsuc}
use corrall.Prelude.Float.{Float}

-- A number is an integer or a float, as serde reads it.
mutual
  pub data Json (F : Type 0) : Type 0 where
    null : Json F
    bool : Bool → Json F
    int : ℤ → Json F
    float : F → Json F
    str : String → Json F
    arr : Items F → Json F
    obj : Fields F → Json F

  pub data Items (F : Type 0) : Type 0 where
    nil : Items F
    cons : Json F → Items F → Items F

  pub data Fields (F : Type 0) : Type 0 where
    end : Fields F
    field : String → Json F → Fields F → Fields F

module _ {F : Type 0} where
  abbrev pub to_list : Items F → List (Json F)
  to_list nil = []
  to_list (cons v vs) = v ∷ to_list vs

  abbrev pub of_list : List (Json F) → Items F
  of_list [] = nil
  of_list (v ∷ vs) = cons v (of_list vs)

  -- `Map::get`
  unfoldable pub get_field : String → Fields F → Option (Json F)
  get_field k end = none
  get_field k (field j v fs) = if j == k then some v else get_field k fs

  -- `Map::insert`
  unfoldable pub set_field : String → Json F → Fields F → Fields F
  set_field k v end = field k v end
  set_field k v (field j w fs) = if j == k then field k v fs else field j w (set_field k v fs)

  -- `Map::remove`
  unfoldable pub remove_field : String → Fields F → Fields F
  remove_field k end = end
  remove_field k (field j w fs) =
      let rest = remove_field k fs in if j == k then rest else field j w rest

  -- `Value::get` by a key
  unfoldable pub get : String → Json F → Option (Json F)
  unfolding get_field
  get k (obj fs) = get_field k fs
  get k _ = none

  unfoldable pub as_str : Json F → Option String
  as_str (str s) = some s
  as_str _ = none

  -- `v.get(k).and_then(Value::as_str)`
  abbrev pub text_at : String → Json F → Option String
  text_at k v = Option.bind (get k v) as_str

  unfoldable pub as_array : Json F → Option (List (Json F))
  as_array (arr vs) = some (to_list vs)
  as_array _ = none

  unfoldable pub as_object : Json F → Option (Fields F)
  as_object (obj fs) = some fs
  as_object _ = none

  unfoldable pub as_bool : Json F → Option Bool
  as_bool (bool b) = some b
  as_bool _ = none

  unfoldable pub is_array : Json F → Bool
  is_array (arr vs) = true
  is_array _ = false

  -- `Value::as_i64`: an integer in range.
  unfoldable pub as_i64 : Json F → Option ℤ
  as_i64 (int (pos n)) = if leb n (2 ^ 63 - 1) then some (pos n) else none
  as_i64 (int (negsuc n)) = if leb (suc n) (2 ^ 63) then some (negsuc n) else none
  as_i64 _ = none

  unfoldable pub as_f64 : ⦃fl : Float F⦄ → Json F → Option F
  as_f64 ⦃fl⦄ (int z) = some (fl.of_int z)
  as_f64 (float x) = some x
  as_f64 _ = none

  pub to_list-of_list : (vs : List (Json F)) → to_list (of_list vs) ≡ vs
  to_list-of_list [] = refl
  to_list-of_list (v ∷ vs) = ground (arith, to_list-of_list vs)
