-- ===== src/Json/Platform.antt =====
-- What ui/src/App.jsx uses of the JavaScript engine: floating-point numbers, the conversion of
-- values to texts, and the properties that every object inherits.
use p2ser.Base.{Bool, true, false, Option}
use p2ser.Json.{Json, null, bool, num, str, arr, obj}
use p2ser.Text.{Text, truthy_text}

pub record Platform : Type 1 where
  -- the finite numbers, and `0`, `1`, `a + b`
  pub Num : Type 0
  pub zero_num : Num
  pub one_num : Num
  pub add_num : Num → Num → Num
  -- `n > 0`, and `!n` turned round
  pub positive : Num → Bool
  pub truthy_num : Num → Bool
  -- `parseInt(n)`, which reads the text of the number
  pub parse_int : Num → Num
  -- `String(v)`
  pub num_text : Num → Text
  pub json_text : Json Num → Text
  -- `String(o[k])` for a plain object without the own property `k`; `none` where that is
  -- `undefined`, and a text for what `Object.prototype` has, such as `constructor`.
  pub inherited : Text → Option Text

module _ (js : Platform) where
  open js use {Num, truthy_num}

  -- A value as a condition.
  unfoldable pub truthy : Json Num → Bool
  truthy null = false
  truthy (bool b) = b
  truthy (num n) = truthy_num n
  truthy (str s) = truthy_text s
  truthy (arr vs) = true
  truthy (obj fs) = true
