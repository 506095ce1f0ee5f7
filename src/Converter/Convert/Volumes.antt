-- ===== src/Converter/Convert/Volumes.antt =====
-- The second loop of `convertCompose`: volumes that name a definition with a device.
use p2ser.Base.{not, ◌&&◌, List, ◌∷◌, ◌++◌, if◌then◌else◌, Option, none, some}
use p2ser.Json.{
  Json, str, arr, obj, Items, nil, cons, Fields, end, field, get_field, put_field, prop,
}
use p2ser.Json.Platform.{Platform, truthy}
use p2ser.Text.{Text, codes, includes, starts_with, split_parts, join}

module _ (js : Platform) where
  open js use {Num, json_text}

  -- `volDef && volDef.driver_opts && volDef.driver_opts.device`, where that is true.
  unfoldable pub when_true : Option (Json Num) → Option (Json Num)
  when_true none = none
  when_true (some v) = if truthy js v then some v else none

  unfoldable pub prop_of : Option (Json Num) → Text → Option (Json Num)
  unfolding when_true
  prop_of none k = none
  prop_of (some v) k = when_true (prop v k)

  unfoldable pub device_of : Option (Json Num) → Text → Option (Json Num)
  unfolding prop_of
  device_of named_vols name =
      prop_of (prop_of (prop_of named_vols name) (codes "driver_opts")) (codes "device")

  -- A value inside a template literal.
  unfoldable pub template_text : Json Num → Text
  template_text (str s) = s
  template_text v = json_text v

  unfoldable pub bind_device : Option (Json Num) → Text → List Text → Text
  unfolding template_text
  bind_device none v rest = v
  bind_device (some device) v rest = template_text device ++ b':' ∷ join b':' rest

  unfoldable pub flatten_text : Option (Json Num) → Text → Text
  unfolding bind_device
  flatten_text named_vols v =
      if not (includes b'/' v) && not (starts_with b'.' v)
      then bind_device (device_of named_vols (split_parts b':' v).0) v (split_parts b':' v).1
      else v

  unfoldable pub flatten_value : Option (Json Num) → Json Num → Json Num
  unfolding flatten_text
  flatten_value named_vols (str v) = str (flatten_text named_vols v)
  flatten_value named_vols v = v

  unfoldable pub flatten_items : Option (Json Num) → Items Num → Items Num
  flatten_items named_vols nil = nil
  flatten_items named_vols (cons v vs) =
      cons (flatten_value named_vols v) (flatten_items named_vols vs)

  unfoldable pub flatten_fields : Option (Json Num) → Fields Num → Option (Json Num) → Fields Num
  flatten_fields named_vols svc (some (arr vs)) =
      put_field svc (codes "volumes") (arr (flatten_items named_vols vs))
  flatten_fields named_vols svc _ = svc

  unfoldable pub flatten_service : Option (Json Num) → Json Num → Json Num
  flatten_service named_vols (obj svc) =
      obj (flatten_fields named_vols svc (get_field svc (codes "volumes")))
  flatten_service named_vols v = v

  unfoldable pub flatten_each : Option (Json Num) → Fields Num → Fields Num
  flatten_each named_vols end = end
  flatten_each named_vols (field name svc rest) =
      field name (flatten_service named_vols svc) (flatten_each named_vols rest)

  unfoldable pub flatten_all : Option (Json Num) → Items Num → Items Num
  flatten_all named_vols nil = nil
  flatten_all named_vols (cons svc rest) =
      cons (flatten_service named_vols svc) (flatten_all named_vols rest)

  unfoldable pub flatten_services : Option (Json Num) → Json Num → Json Num
  flatten_services named_vols (obj fs) = obj (flatten_each named_vols fs)
  flatten_services named_vols (arr vs) = arr (flatten_all named_vols vs)
  flatten_services named_vols v = v
