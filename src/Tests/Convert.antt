-- ===== src/Tests/Convert.antt =====
-- `convertCompose` and what it is made of.
use p2ser.Base.{ℕ, ◌≡◌, refl, Option, some, [], ◌∷◌}
use p2ser.Json.{
  Json, str, obj, arr, Items, nil, cons, Fields, end, field, get_field, put_field, remove_field,
  prop,
}
use p2ser.Json.Platform.{truthy}
use p2ser.Text.{codes, equal, is_word, cut_at}
use p2ser.Converter.Interpolate.{
  interpolate, match_at, reference, take_name, after_name, is_name_start, span_word, env_value,
  value_of,
}
use p2ser.Converter.Convert.Outcome.{ok}
use p2ser.Converter.Convert.Service.{
  convert_fields, convert_service, strip, interpolate_service, image_step, environment_step,
  volumes_step, interpolate_value, interpolate_items, replicas_step, set_deploy, deploy_of,
  standby_step, userns_step,
}
use p2ser.Converter.Convert.Written.{Written, convert_fields_writes}
use p2ser.Converter.Convert.References.{References, convert_fields-References}
use p2ser.Converter.Convert.Document.{Manifest, convert_compose_total}
use p2ser.Converter.Convert.Volumes.{device_of, flatten_service, flatten_services, flatten_each}
use p2ser.Converter.Convert.{
  convert_compose, settings_of, convert_services, services_of, convert_each,
}
use p2ser.Dict.{get}
use p2ser.Tests.Data.{tiny_js, env, own, all, web, web_out, compose}

web_converts : convert_fields tiny_js env own all web ≡ ok web_out
unfolding convert_fields strip interpolate_service image_step environment_step volumes_step
    interpolate_value interpolate_items replicas_step set_deploy deploy_of standby_step userns_step
    get_field put_field remove_field equal truthy interpolate match_at reference take_name
    after_name is_name_start span_word env_value value_of is_word get cut_at
web_converts = refl

convert_fields_writes_example :
    (out : Fields ℕ) × (convert_fields tiny_js env own all web ≡ ok out)
    × Written tiny_js env own all web out
unfolding get_field equal
convert_fields_writes_example = convert_fields_writes tiny_js env own all web refl tt

convert_fields-References_example : References tiny_js env web web_out
convert_fields-References_example =
    convert_fields-References tiny_js env own all web web_out web_converts

convert_compose_total_example :
    (out : Fields ℕ) × (convert_compose tiny_js compose ((codes "web", own) ∷ []) all env ≡ ok out)
    × Manifest tiny_js env
        ((codes "web", own) ∷ [])
        all
        compose
        (field (codes "web") (obj web) end)
        out
unfolding get_field equal settings_of get
convert_compose_total_example =
    convert_compose_total tiny_js env ((codes "web", own) ∷ []) all compose
      (field (codes "web") (obj web) end) refl ((tt, refl), tt)

abbrev list_service : Fields ℕ
list_service = field (codes "job") (arr nil) end

abbrev list_file : Fields ℕ
list_file = field (codes "services") (obj list_service) end

list_file_converts : convert_compose tiny_js list_file [] all env ≡ ok list_file
unfolding convert_compose convert_services services_of convert_each convert_service settings_of
    flatten_services flatten_each flatten_service get_field put_field remove_field equal get
list_file_converts = refl

abbrev vols : Option (Json ℕ)
vols = some (
    obj (
      field (codes "db")
        (obj (
          field (codes "driver_opts") (obj (field (codes "device") (str (codes "/mnt/db")) end))
            end))
        end))

db_device : device_of tiny_js vols (codes "db") ≡ some (str (codes "/mnt/db"))
unfolding device_of prop get_field equal truthy
db_device = refl

abbrev mounts : Items ℕ
mounts = cons (str (codes "db:/var/lib/db")) nil
