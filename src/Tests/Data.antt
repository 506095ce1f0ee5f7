-- ===== src/Tests/Data.antt =====
-- A platform and inputs for the tests.
use p2ser.Base.{ℕ, ◌+◌, ltb, Option, none, some, if◌then◌else◌, [], ◌∷◌, true, false}
use p2ser.Dict.{Dict}
use p2ser.Json.Platform.{Platform}
use p2ser.Json.{Json, str, obj, arr, num, null, nil, cons, Fields, end, field, index_key}
use p2ser.Text.{Text, codes, equal}
use p2ser.Converter.Convert.Outcome.{Settings}

abbrev pub inherited_text : Text → Option Text
unfolding equal
inherited_text k =
    if equal k (codes "constructor")
    then some (codes "function Object() { [native code] }")
    else none

abbrev pub tiny_js : Platform
tiny_js = record {
  Num = ℕ;
  zero_num = 0;
  one_num = 1;
  add_num = λ a b. a + b;
  positive = λ n. ltb 0 n;
  truthy_num = λ n. ltb 0 n;
  parse_int = λ n. n;
  num_text = index_key;
  json_text = λ v. codes "[object Object]";
  inherited = inherited_text;
}

abbrev pub env : Dict Text
env = (codes "TAG", codes "1.2") ∷ []

abbrev pub own : Settings ℕ
own = record { replicas = some 3; standby = some 1; userns = some false }

abbrev pub all : Settings ℕ
all = record { replicas = some 1; standby = some 0; userns = some true }

abbrev pub web : Fields ℕ
web = field (codes "image") (str (codes "nginx:${TAG}")) (
    field (codes "build") (str (codes "."))
      (field (codes "ports") (arr (cons (str (codes "80:80")) nil)) end))

abbrev pub web_out : Fields ℕ
web_out = field (codes "image") (str (codes "nginx:1.2")) (
    field (codes "ports") (arr (cons (str (codes "80:80")) nil)) (
      field (codes "deploy") (obj (field (codes "replicas") (num 3) end)) (
        field (codes "x-k1n-standby") (num 1)
          (field (codes "x-userns-remap") (Json.bool false) end))))

abbrev pub compose : Fields ℕ
compose =
    field (codes "services") (obj (field (codes "web") (obj web) end))
      (field (codes "networks") null end)
