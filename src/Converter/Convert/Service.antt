-- ===== src/Converter/Convert/Service.antt =====
-- The first loop of `convertCompose` on one service: fields removed, references replaced, and the
-- settings written.
use p2ser.Base.{Bool, false, if◌then◌else◌, Option, none, some}
use p2ser.Dict.{Dict}
use p2ser.Json.{
  Json, null, bool, num, str, arr, obj, Items, nil, cons, Fields, end, field, get_field, put_field,
  remove_field,
}
use p2ser.Json.Platform.{Platform, truthy}
use p2ser.Text.{Text, codes}
use p2ser.Converter.Interpolate.{interpolate}
use p2ser.Converter.Convert.Outcome.{
  null_service, primitive_service, primitive_deploy, Result, ok, thrown, map_result, coalesce,
  Settings,
}

-- The four `delete svc.…`
unfoldable pub strip : {Num : Type 0} → Fields Num → Fields Num
strip svc =
    remove_field
      (remove_field (remove_field (remove_field svc (codes "container_name")) (codes "healthcheck"))
        (codes "networks"))
      (codes "build")

module _ (js : Platform) where
  open js use {Num, zero_num, one_num, positive, parse_int, json_text, inherited}

  -- `a ?? b ?? c`
  abbrev pub either {ℓ} : {A : Type ℓ} → Option A → Option A → A → A
  either own global fallback = coalesce own (coalesce global fallback)

  module _ (env : Dict Text) where
    -- `interpolate(v, envMap)` for any value
    unfoldable pub interpolate_value : Json Num → Json Num
    interpolate_value (str s) = str (interpolate inherited env s)
    interpolate_value v = v

    unfoldable pub interpolate_items : Items Num → Items Num
    interpolate_items nil = nil
    interpolate_items (cons v vs) = cons (interpolate_value v) (interpolate_items vs)

    unfoldable pub interpolate_fields : Fields Num → Fields Num
    interpolate_fields end = end
    interpolate_fields (field k v fs) = field k (interpolate_value v) (interpolate_fields fs)

    -- `if (svc.image) svc.image = interpolate(svc.image, envMap)`
    unfoldable pub image_step : Fields Num → Option (Json Num) → Fields Num
    image_step svc none = svc
    image_step svc (some v) =
        if truthy js v then put_field svc (codes "image") (interpolate_value v) else svc

    unfoldable pub environment_step : Fields Num → Option (Json Num) → Fields Num
    environment_step svc (some (arr vs)) =
        put_field svc (codes "environment") (arr (interpolate_items vs))
    environment_step svc (some (obj fs)) =
        put_field svc (codes "environment") (obj (interpolate_fields fs))
    environment_step svc _ = svc

    unfoldable pub volumes_step : Fields Num → Option (Json Num) → Fields Num
    volumes_step svc (some (arr vs)) = put_field svc (codes "volumes") (arr (interpolate_items vs))
    volumes_step svc _ = svc

    unfoldable pub interpolate_service : Fields Num → Fields Num
    interpolate_service svc =
        let imaged = image_step svc (get_field svc (codes "image")) in
        let environed = environment_step imaged (get_field imaged (codes "environment")) in
        volumes_step environed (get_field environed (codes "volumes"))

  -- `svc.deploy = svc.deploy || {}; svc.deploy.replicas = n`. A property set on an array is left
  -- out when the manifest is printed, so the array stands for itself.
  unfoldable pub deploy_of : Num → Json Num → Result (Json Num)
  deploy_of n (obj fs) = ok (obj (put_field fs (codes "replicas") (num n)))
  deploy_of n (arr vs) = ok (arr vs)
  deploy_of n v =
      if truthy js v
      then thrown primitive_deploy
      else ok (obj (field (codes "replicas") (num n) end))

  unfoldable pub set_deploy : Num → Fields Num → Option (Json Num) → Result (Fields Num)
  set_deploy n svc none =
      ok (put_field svc (codes "deploy") (obj (field (codes "replicas") (num n) end)))
  set_deploy n svc (some v) = map_result (put_field svc (codes "deploy")) (deploy_of n v)

  unfoldable pub replicas_step : Num → Fields Num → Result (Fields Num)
  replicas_step n svc =
      if positive n then set_deploy n svc (get_field svc (codes "deploy")) else ok svc

  unfoldable pub standby_step : Num → Fields Num → Fields Num
  standby_step n svc = if positive n then put_field svc (codes "x-k1n-standby") (num n) else svc

  unfoldable pub userns_step : Bool → Fields Num → Fields Num
  userns_step b svc = put_field svc (codes "x-userns-remap") (bool b)

  -- The values that the settings give.
  abbrev pub replicas_of : Settings Num → Settings Num → Num
  replicas_of cfg global = parse_int (either cfg.replicas global.replicas one_num)

  abbrev pub standby_of : Settings Num → Settings Num → Num
  standby_of cfg global = parse_int (either cfg.standby global.standby zero_num)

  abbrev pub userns_of : Settings Num → Settings Num → Bool
  userns_of cfg global = either cfg.userns global.userns false

  -- The body of the first loop, on an object.
  unfoldable pub convert_fields :
      Dict Text → Settings Num → Settings Num → Fields Num → Result (Fields Num)
  convert_fields env cfg global svc =
      map_result
        (λ deployed.
          userns_step (userns_of cfg global) (standby_step (standby_of cfg global) deployed))
        (replicas_step (replicas_of cfg global) (interpolate_service env (strip svc)))

  unfoldable pub convert_service :
      Dict Text → Settings Num → Settings Num → Json Num → Result (Json Num)
  convert_service env cfg global (obj svc) = map_result obj (convert_fields env cfg global svc)
  convert_service env cfg global (arr vs) = ok (arr vs)
  convert_service env cfg global null = thrown null_service
  convert_service env cfg global _ = thrown primitive_service
