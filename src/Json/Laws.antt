-- ===== src/Json/Laws.antt =====
-- Assignment and deletion of properties against access to them.
use p2ser.Base.{◌≡◌, refl, arith, none, some, if◌then◌else◌}
use p2ser.Json.{Json, Fields, end, field, get_field, put_field, remove_field}
use p2ser.Text.Equality.{equal_iff}
use p2ser.Text.{Text, equal}

module _ {Num : Type 0} where
  pub get-put_field :
      (fs : Fields Num) (k j : Text) (v : Json Num)
      → get_field (put_field fs k v) j ≡ (if equal k j then some v else get_field fs j)
  unfolding get_field put_field
  get-put_field end k j v = refl
  get-put_field (field i w fs) k j v =
      ground (arith, equal_iff k j, equal_iff i k, equal_iff i j, get-put_field fs k j v)

  pub get-remove_field :
      (fs : Fields Num) (k j : Text)
      → get_field (remove_field fs k) j ≡ (if equal k j then none else get_field fs j)
  unfolding get_field remove_field
  get-remove_field end k j = ground arith
  get-remove_field (field i w fs) k j =
      ground (arith, equal_iff k j, equal_iff i k, equal_iff i j, get-remove_field fs k j)
