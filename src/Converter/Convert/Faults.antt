-- ===== src/Converter/Convert/Faults.antt =====
-- What makes `convertCompose` throw.
use p2ser.Base.{◌≡◌, refl, ◌∙◌, some}
use p2ser.Dict.{Dict}
use p2ser.Json.Laws.{get-remove_field}
use p2ser.Json.Platform.{Platform}
use p2ser.Json.{Json, null, bool, num, str, arr, obj, Fields, end, field, get_field}
use p2ser.Text.{Text, codes, equal}
use p2ser.Converter.Convert.Outcome.{Result, ok, thrown, map_result, Settings, ◌>>=◌}
use p2ser.Converter.Convert.Service.{convert_service}
use p2ser.Converter.Convert.{convert_each, convert_services, services_of, convert_compose}

module _ {Num : Type 0} where
  -- An object or an array.
  abbrev pub IsContainer : Json Num → Type 0
  IsContainer (obj fs) = Unit
  IsContainer (arr vs) = Unit
  IsContainer _ = ⊥

  abbrev pub AllContainers : Fields Num → Type 0
  AllContainers end = Unit
  AllContainers (field name svc rest) = IsContainer svc × AllContainers rest

bind_ok {ℓ κ} :
    {A : Type ℓ} {B : Type κ} (m : Result A) (f : A → Result B) (b : B)
    → (m >>= f) ≡ ok b
    → (a : A) × (m ≡ ok a) × (f a ≡ ok b)
bind_ok (ok a) f b h = (a, refl, h)
bind_ok (thrown e) f b h = absurd (cc)

map_ok {ℓ κ} :
    {A : Type ℓ} {B : Type κ} (f : A → B) (m : Result A) (b : B)
    → map_result f m ≡ ok b
    → (a : A) × (m ≡ ok a)
map_ok f (ok a) b h = (a, refl)
map_ok f (thrown e) b h = absurd (cc)

module _ (js : Platform) (env : Dict Text) (settings : Dict (Settings js.Num))
    (global : Settings js.Num) where
  open js use {Num}

  convert_service-IsContainer :
      (cfg : Settings Num) (svc out : Json Num)
      → convert_service js env cfg global svc ≡ ok out
      → IsContainer svc
  unfolding convert_service
  convert_service-IsContainer cfg (obj fs) out h = tt
  convert_service-IsContainer cfg (arr vs) out h = tt
  convert_service-IsContainer cfg null out h = absurd (cc)
  convert_service-IsContainer cfg (bool _) out h = absurd (cc)
  convert_service-IsContainer cfg (num _) out h = absurd (cc)
  convert_service-IsContainer cfg (str _) out h = absurd (cc)

  convert_each-AllContainers :
      (fs outs : Fields Num) → convert_each js env settings global fs ≡ ok outs → AllContainers fs
  unfolding convert_each
  convert_each-AllContainers end outs h = tt
  convert_each-AllContainers (field name svc rest) outs h =
      let (out, e, later) = bind_ok _ _ outs h in
      let (others, f, _) = bind_ok _ _ outs later in
      (convert_service-IsContainer _ svc out e, convert_each-AllContainers rest others f)

  -- One service that is empty, a text, a number or a boolean makes the conversion of the whole
  -- file throw: where it does not, every service is an object or an array.
  pub convert_compose-AllContainers :
      (parsed services out : Fields Num)
      → get_field parsed (codes "services") ≡ some (obj services)
      → convert_compose js parsed settings global env ≡ ok out
      → AllContainers services
  unfolding convert_compose convert_services services_of equal
  convert_compose-AllContainers parsed services out e h =
      let found = get-remove_field parsed (codes "networks") (codes "services") ∙ e in
      let (v, f) = map_ok _ _ out (rw found at h) in
      let (outs, g) = map_ok _ _ v f in convert_each-AllContainers services outs g
