-- ===== src/Converter/Convert.antt =====
-- `convertCompose`: a parsed compose file into a P2SER manifest.
-- The deep copy `JSON.parse(JSON.stringify(parsed))` is the same value here, for values are not
-- written to; so every assignment is to the copy. What the engine throws is `thrown`, with the
-- place that throws it.
pub mod Outcome
pub mod Service
pub mod Volumes
pub mod Kept
pub mod Written
pub mod References
pub mod Named
pub mod Document
pub mod Faults
pub mod Global
use p2ser.Base.{
  ℕ, zero, suc, ◌+◌, Bool, true, false, not, ◌&&◌, ◌||◌, List, [], ◌∷◌, ◌++◌, if◌then◌else◌, Option,
  none, some,
}
use p2ser.Dict.{Dict, get}
use p2ser.Json.{
  Json, null, bool, num, str, arr, obj, Items, nil, cons, Fields, end, field, get_field, put_field,
  remove_field, prop, index_key,
}
use p2ser.Json.Platform.{Platform, truthy}
use p2ser.Text.{Text, codes, includes, starts_with, split_parts, join, truthy_text}
use p2ser.Converter.Convert.Service.{convert_service}
use p2ser.Converter.Convert.Volumes.{flatten_services}
use p2ser.Converter.Convert.Outcome.{
  Fault, null_service, primitive_service, primitive_deploy, Result, ok, thrown, ◌>>=◌, map_result,
  coalesce, Settings, no_settings,
}

module _ (js : Platform) where
  open js use {Num}

  -- `serviceSettings[name] || {}`
  unfoldable pub settings_of : Dict (Settings Num) → Text → Settings Num
  settings_of settings name = coalesce (get settings name) no_settings

  module _ (env : Dict Text) (settings : Dict (Settings Num)) (global : Settings Num) where
    unfoldable pub convert_each : Fields Num → Result (Fields Num)
    convert_each end = ok end
    convert_each (field name svc rest) = do
      converted ← convert_service js env (settings_of settings name) global svc
      others ← convert_each rest
      ok (field name converted others)

    -- `services` may be an array, whose keys are its indices.
    unfoldable pub convert_items : ℕ → Items Num → Result (Items Num)
    convert_items i nil = ok nil
    convert_items i (cons svc rest) = do
      converted ← convert_service js env (settings_of settings (index_key i)) global svc
      others ← convert_items (suc i) rest
      ok (cons converted others)

    -- A text has its units for properties, and these are texts; numbers and `true` have none.
    unfoldable pub convert_services : Json Num → Result (Json Num)
    convert_services (obj fs) = map_result obj (convert_each fs)
    convert_services (arr vs) = map_result arr (convert_items 0 vs)
    convert_services (str s) = if truthy_text s then thrown primitive_service else ok (obj end)
    convert_services v = ok (if truthy js v then v else obj end)

  -- `result.services || {}`
  unfoldable pub services_of : Option (Json Num) → Json Num
  services_of none = obj end
  services_of (some v) = v

  -- The parsed file is an object, for `loadYaml` lets only a value with `services` through.
  unfoldable pub convert_compose :
      Fields Num → Dict (Settings Num) → Settings Num → Dict Text → Result (Fields Num)
  convert_compose parsed settings global env =
      let result = remove_field parsed (codes "networks") in
      map_result
        (λ services.
          put_field (remove_field result (codes "volumes")) (codes "services")
            (flatten_services js (get_field result (codes "volumes")) services))
        (convert_services env settings global (services_of (get_field result (codes "services"))))
