-- ===== src/Converter/Convert/Global.antt =====
-- Where every service has settings of its own, those for all services are not read.
use p2ser.Base.{◌≡◌, refl, ap, ◌∙◌, List, Option, some, none, All, false, ℕ, suc}
use p2ser.Dict.{Dict}
use p2ser.Json.Laws.{get-remove_field}
use p2ser.Json.Platform.{Platform}
use p2ser.Json.{
  Json, null, bool, num, str, arr, obj, Items, nil, cons, Fields, end, field, get_field,
  field_names, index_names, object_keys, index_key,
}
use p2ser.Text.{Text, codes, equal}
use p2ser.Converter.Convert.Outcome.{ok, map_result, coalesce, Settings, ◌>>=◌}
use p2ser.Converter.Convert.Service.{
  convert_service, convert_fields, strip, interpolate_service, userns_step, standby_step,
  replicas_step,
}
use p2ser.Converter.Convert.{
  settings_of, convert_each, convert_items, convert_services, services_of, convert_compose,
}

abbrev pub IsGiven {ℓ} : {A : Type ℓ} → Option A → Type 0
IsGiven none = ⊥
IsGiven (some a) = Unit

-- All three settings are there.
pub record IsComplete {Num : Type 0} (s : Settings Num) : Type 0 where
  pub replicas_given : IsGiven s.replicas
  pub standby_given : IsGiven s.standby
  pub userns_given : IsGiven s.userns

coalesce_given {ℓ} : {A : Type ℓ} (o : Option A) (b c : A) → IsGiven o → coalesce o b ≡ coalesce o c
coalesce_given none b c h = absurd h
coalesce_given (some a) b c h = refl

module _ (js : Platform) (env : Dict Text) where
  open js use {Num, parse_int, one_num, zero_num}

  convert_fields_global :
      (cfg g g' : Settings Num) (svc : Fields Num)
      → IsComplete cfg
      → convert_fields js env cfg g svc ≡ convert_fields js env cfg g' svc
  unfolding convert_fields
  convert_fields_global cfg g g' svc h =
      let r =
        coalesce_given cfg.replicas (coalesce g.replicas one_num) (coalesce g'.replicas one_num)
          h.replicas_given in
      let s =
        coalesce_given cfg.standby (coalesce g.standby zero_num) (coalesce g'.standby zero_num)
          h.standby_given in
      let u =
        coalesce_given cfg.userns (coalesce g.userns false) (coalesce g'.userns false)
          h.userns_given in
      λ i.
        map_result (λ deployed. userns_step js (u i) (standby_step js (parse_int (s i)) deployed))
          (replicas_step js (parse_int (r i)) (interpolate_service js env (strip svc)))

  convert_service_global :
      (cfg g g' : Settings Num) (svc : Json Num)
      → IsComplete cfg
      → convert_service js env cfg g svc ≡ convert_service js env cfg g' svc
  unfolding convert_service
  convert_service_global cfg g g' (obj fs) h =
      ap (map_result obj) (convert_fields_global cfg g g' fs h)
  convert_service_global cfg g g' (arr _) h = refl
  convert_service_global cfg g g' null h = refl
  convert_service_global cfg g g' (bool _) h = refl
  convert_service_global cfg g g' (num _) h = refl
  convert_service_global cfg g g' (str _) h = refl

  module _ (settings : Dict (Settings Num)) (g g' : Settings Num) where
    abbrev pub AllComplete : List Text → Type 0
    AllComplete = All (λ name. IsComplete (settings_of js settings name))

    convert_each_global :
        (fs : Fields Num)
        → AllComplete (field_names fs)
        → convert_each js env settings g fs ≡ convert_each js env settings g' fs
    unfolding convert_each field_names
    convert_each_global end h = refl
    convert_each_global (field name svc rest) (p, h) =
        let one = convert_service_global (settings_of js settings name) g g' svc p in
        let others = convert_each_global rest h in
        λ i. one i >>= λ c. others i >>= λ o. ok (field name c o)

    convert_items_global :
        (n : ℕ) (vs : Items Num)
        → AllComplete (index_names n vs)
        → convert_items js env settings g n vs ≡ convert_items js env settings g' n vs
    unfolding convert_items index_names
    convert_items_global n nil h = refl
    convert_items_global n (cons svc rest) (p, h) =
        let one = convert_service_global (settings_of js settings (index_key n)) g g' svc p in
        let others = convert_items_global (suc n) rest h in
        λ i. one i >>= λ c. others i >>= λ o. ok (cons c o)

    convert_services_global :
        (services : Json Num)
        → AllComplete (object_keys services)
        → convert_services js env settings g services ≡ convert_services js env settings g' services
    unfolding convert_services object_keys
    convert_services_global (obj fs) h = ap (map_result obj) (convert_each_global fs h)
    convert_services_global (arr vs) h = ap (map_result arr) (convert_items_global 0 vs h)
    convert_services_global (str s) h = refl
    convert_services_global null h = refl
    convert_services_global (bool _) h = refl
    convert_services_global (num _) h = refl

    -- Where each service has all three settings of its own, the settings for all services have no
    -- influence on the manifest.
    pub convert_compose_global :
        (parsed : Fields Num) (services : Json Num)
        → get_field parsed (codes "services") ≡ some services
        → AllComplete (object_keys services)
        → convert_compose js parsed settings g env ≡ convert_compose js parsed settings g' env
    unfolding convert_compose services_of equal
    convert_compose_global parsed services e h =
        let found = get-remove_field parsed (codes "networks") (codes "services") ∙ e in
        rw found (ap (map_result _) (convert_services_global services h))
