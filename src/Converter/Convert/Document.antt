-- ===== src/Converter/Convert/Document.antt =====
-- `convertCompose` on a whole file.
use p2ser.Base.{◌≡◌, refl, ◌∙◌, Option, some, none, true, if◌then◌else◌}
use p2ser.Dict.{Dict}
use p2ser.Json.Laws.{get-put_field, get-remove_field}
use p2ser.Json.Platform.{Platform}
use p2ser.Json.{
  Json, null, bool, num, str, arr, obj, Fields, end, field, get_field, put_field, remove_field,
}
use p2ser.Text.{Text, codes, equal}
use p2ser.Converter.Convert.Outcome.{ok, Settings}
use p2ser.Converter.Convert.Service.{convert_service, convert_fields, replicas_of}
use p2ser.Converter.Convert.Volumes.{flatten_service, flatten_services, flatten_each}
use p2ser.Converter.Convert.Written.{IsDeploy, convert_fields_writes}
use p2ser.Converter.Convert.{
  settings_of, convert_each, convert_services, services_of, convert_compose,
}

module _ (js : Platform) (env : Dict Text) (settings : Dict (Settings js.Num))
    (global : Settings js.Num) where
  open js use {Num, positive}

  abbrev replicas_at : Text → Num
  replicas_at name = replicas_of js (settings_of js settings name) global

  -- A service that the converter can handle: an object whose `deploy`, if it is there, is one too,
  -- with a positive number of replicas set for it.
  abbrev pub IsService : Text → Json Num → Type 0
  IsService name (obj svc) =
      IsDeploy (get_field svc (codes "deploy")) × (positive (replicas_at name) ≡ true)
  IsService name _ = ⊥

  abbrev pub AllServices : Fields Num → Type 0
  AllServices end = Unit
  AllServices (field name svc rest) = IsService name svc × AllServices rest

  -- The converted services stand in the order of the file, under their names.
  pub data Converted (vols : Option (Json Num)) : Fields Num → Fields Num → Type 0 where
    done : Converted vols end end
    service :
        {name : Text} {svc out rest others : Fields Num}
        → convert_fields js env (settings_of js settings name) global svc ≡ ok out
        → Converted vols rest others
        → Converted vols
            (field name (obj svc) rest)
            (field name (flatten_service js vols (obj out)) others)

  convert_each_total :
      (vols : Option (Json Num)) (fs : Fields Num)
      → AllServices fs
      → (outs : Fields Num) × (convert_each js env settings global fs ≡ ok outs)
        × Converted vols fs (flatten_each js vols outs)
  unfolding convert_each flatten_each convert_service
  convert_each_total vols end h = (end, refl, done)
  convert_each_total vols (field name (obj svc) rest) ((deploy, pos), h) =
      let (out, e, written) =
        convert_fields_writes js env (settings_of js settings name) global svc pos deploy in
      let (others, f, converted) = convert_each_total vols rest h in
      (field name (obj out) others, rw (e, f), service e converted)
  convert_each_total vols (field name null rest) (p, h) = absurd p
  convert_each_total vols (field name (bool _) rest) (p, h) = absurd p
  convert_each_total vols (field name (num _) rest) (p, h) = absurd p
  convert_each_total vols (field name (str _) rest) (p, h) = absurd p
  convert_each_total vols (field name (arr _) rest) (p, h) = absurd p

  -- The manifest has the converted services, no `networks` and no `volumes`, and every other
  -- property of the file.
  pub record Manifest (parsed services out : Fields Num) : Type 0 where
    pub converted : Fields Num
    pub services_are :
        Converted
          (get_field (remove_field parsed (codes "networks")) (codes "volumes"))
          services
          converted
    pub fields_are :
        (k : Text)
        → get_field out k ≡ (
            if equal (codes "services") k
            then some (obj converted)
            else if equal (codes "volumes") k
            then none
            else if equal (codes "networks") k
            then none
            else get_field parsed k)

  -- A file whose services are all objects, with positive numbers of replicas and no `deploy` that
  -- is no object, is converted: every service in its place, and nothing else of the file is lost but `networks` and
  -- `volumes`.
  pub convert_compose_total :
      (parsed services : Fields Num)
      → get_field parsed (codes "services") ≡ some (obj services)
      → AllServices services
      → (out : Fields Num) × (convert_compose js parsed settings global env ≡ ok out)
        × Manifest parsed services out
  unfolding convert_compose convert_services services_of flatten_services equal
  convert_compose_total parsed services e h =
      let result = remove_field parsed (codes "networks") in
      let vols = get_field result (codes "volumes") in
      let (outs, f, converted) = convert_each_total vols services h in
      let found = get-remove_field parsed (codes "networks") (codes "services") ∙ e in
      (
        put_field (remove_field result (codes "volumes")) (codes "services")
            (obj (flatten_each js vols outs)),
        rw (found, services_of) (rw f),
        record {
          converted = flatten_each js vols outs;
          services_are = converted;
          fields_are = λ k. simp (get-put_field, get-remove_field);
        },
      )
