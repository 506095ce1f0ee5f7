-- ===== src/Json.antt =====
-- The values that `JSON` writes, over the numbers of the platform, and what ui/src/App.jsx does
-- with them: property access, assignment, deletion, `Object.keys`, truth as a condition.
pub mod Laws
pub mod Platform
use p2ser.Base.{
  ℕ, zero, suc, ◌+◌, ◌/◌, ◌%◌, ◌==◌, Bool, true, false, not, Option, none, some, List, [], ◌∷◌,
  ◌++◌, if◌then◌else◌,
}
use p2ser.Text.{Text, equal}

mutual
  pub data Json (Num : Type 0) : Type 0 where
    null : Json Num
    bool : Bool → Json Num
    num : Num → Json Num
    str : Text → Json Num
    arr : Items Num → Json Num
    obj : Fields Num → Json Num

  pub data Items (Num : Type 0) : Type 0 where
    nil : Items Num
    cons : Json Num → Items Num → Items Num

  pub data Fields (Num : Type 0) : Type 0 where
    end : Fields Num
    field : Text → Json Num → Fields Num → Fields Num

-- The decimal digits of a number, in front of a text; the fuel bounds their count.
decimal_onto : ℕ → ℕ → Text → Text
decimal_onto zero n out = out
decimal_onto (suc fuel) n out =
    let digit = (n % 10) + b'0' in
    let rest = decimal_onto fuel (n / 10) (digit ∷ out) in if n / 10 == 0 then digit ∷ out else rest

-- The key of index `i` of an array, which is `String(i)`: `n + 1` digits are enough for `n`.
unfoldable pub index_key : ℕ → Text
unfolding decimal_onto
index_key n = decimal_onto (suc n) n []

unfoldable pub unit_names : ℕ → Text → List Text
unfolding index_key
unit_names i [] = []
unit_names i (c ∷ s) = index_key i ∷ unit_names (suc i) s

module _ {Num : Type 0} where
  -- `o[k]` for an own property; `none` is `undefined`.
  unfoldable pub get_field : Fields Num → Text → Option (Json Num)
  get_field end k = none
  get_field (field j v fs) k = if equal j k then some v else get_field fs k

  -- `o[k] = v`: in place, or behind the other properties.
  unfoldable pub put_field : Fields Num → Text → Json Num → Fields Num
  put_field end k v = field k v end
  put_field (field j w fs) k v = if equal j k then field j v fs else field j w (put_field fs k v)

  -- `delete o[k]`
  unfoldable pub remove_field : Fields Num → Text → Fields Num
  remove_field end k = end
  remove_field (field j v fs) k =
      let rest = remove_field fs k in if equal j k then rest else field j v rest

  -- `Object.keys(o)`
  unfoldable pub field_names : Fields Num → List Text
  field_names end = []
  field_names (field k v fs) = k ∷ field_names fs

  unfoldable pub item_from : ℕ → Items Num → Text → Option (Json Num)
  unfolding index_key
  item_from i nil k = none
  item_from i (cons v vs) k = if equal (index_key i) k then some v else item_from (suc i) vs k

  -- `v[k]` where the result is only asked for further properties: the text and the functions that
  -- strings, arrays and prototypes would give at some keys have none of those either.
  unfoldable pub prop : Json Num → Text → Option (Json Num)
  prop (obj fs) k = get_field fs k
  prop (arr vs) k = item_from 0 vs k
  prop _ k = none

  unfoldable pub index_names : ℕ → Items Num → List Text
  unfolding index_key
  index_names i nil = []
  index_names i (cons v vs) = index_key i ∷ index_names (suc i) vs

  -- `Object.keys(v)` for a value that is true as a condition.
  unfoldable pub object_keys : Json Num → List Text
  unfolding field_names index_names unit_names
  object_keys (obj fs) = field_names fs
  object_keys (arr vs) = index_names 0 vs
  object_keys (str s) = unit_names 0 s
  object_keys _ = []
