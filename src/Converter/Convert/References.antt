-- ===== src/Converter/Convert/References.antt =====
-- References in `image`, `environment` and `volumes` of a service are replaced, and only there.
use p2ser.Base.{◌≡◌, refl, ap, ◌∙◌, sym, [], ◌∷◌, Option, some, none, false, inl, inr, Bool-cases}
use mathlib.Core.Option
use p2ser.Dict.{Dict}
use p2ser.Json.Laws.{get-put_field}
use p2ser.Json.Platform.{Platform, truthy}
use p2ser.Json.{Json, null, bool, num, str, arr, obj, Fields, get_field, put_field}
use p2ser.Text.Equality.{equal_refl}
use p2ser.Text.{Text, codes, equal}
use p2ser.Converter.Interpolate.{interpolate}
use p2ser.Converter.Convert.Kept.{
  strip_keeps, image_step_keeps, environment_step_keeps, volumes_step_keeps, Agrees, finish_keeps,
  replicas_step_keeps,
}
use p2ser.Converter.Convert.Outcome.{ok, Settings}
use p2ser.Converter.Convert.Service.{
  strip, interpolate_value, interpolate_items, interpolate_fields, image_step, environment_step,
  volumes_step, interpolate_service, convert_fields, replicas_of,
}

module _ (js : Platform) (env : Dict Text) where
  open js use {Num}

  -- `environment` is a list of texts or a map.
  abbrev pub interpolate_container : Json Num → Json Num
  interpolate_container (arr vs) = arr (interpolate_items js env vs)
  interpolate_container (obj fs) = obj (interpolate_fields js env fs)
  interpolate_container v = v

  -- `volumes` is a list.
  abbrev pub interpolate_list : Json Num → Json Num
  interpolate_list (arr vs) = arr (interpolate_items js env vs)
  interpolate_list v = v

  get-put_self :
      (svc : Fields Num) (k : Text) (v : Json Num) → get_field (put_field svc k v) k ≡ some v
  get-put_self svc k v = rw (get-put_field, equal_refl k)

  false_value : (v : Json Num) → truthy js v ≡ false → interpolate_value js env v ≡ v
  unfolding truthy interpolate_value interpolate
  false_value (str []) h = refl
  false_value (str (c ∷ s)) h = absurd (cc)
  false_value null h = refl
  false_value (bool b) h = refl
  false_value (num n) h = refl
  false_value (arr vs) h = refl
  false_value (obj fs) h = refl

  image_step_lem :
      (svc : Fields Num) (o : Option (Json Num))
      → get_field svc (codes "image") ≡ o
      → get_field (image_step js env svc o) (codes "image")
        ≡ Option.map (interpolate_value js env) o
  unfolding image_step
  image_step_lem svc none h = h
  image_step_lem svc (some v) h = elim (Bool-cases (truthy js v)) [
    | inl e ↦ rw e (get-put_self svc _ _)
    | inr e ↦ rw e (h ∙ ap some (sym (false_value v e)))
  ]

  environment_step_lem :
      (svc : Fields Num) (o : Option (Json Num))
      → get_field svc (codes "environment") ≡ o
      → get_field (environment_step js env svc o) (codes "environment")
        ≡ Option.map interpolate_container o
  unfolding environment_step
  environment_step_lem svc none h = h
  environment_step_lem svc (some (arr vs)) h = get-put_self svc _ _
  environment_step_lem svc (some (obj fs)) h = get-put_self svc _ _
  environment_step_lem svc (some null) h = h
  environment_step_lem svc (some (bool b)) h = h
  environment_step_lem svc (some (num n)) h = h
  environment_step_lem svc (some (str s)) h = h

  volumes_step_lem :
      (svc : Fields Num) (o : Option (Json Num))
      → get_field svc (codes "volumes") ≡ o
      → get_field (volumes_step js env svc o) (codes "volumes") ≡ Option.map interpolate_list o
  unfolding volumes_step
  volumes_step_lem svc none h = h
  volumes_step_lem svc (some (arr vs)) h = get-put_self svc _ _
  volumes_step_lem svc (some (obj fs)) h = h
  volumes_step_lem svc (some null) h = h
  volumes_step_lem svc (some (bool b)) h = h
  volumes_step_lem svc (some (num n)) h = h
  volumes_step_lem svc (some (str s)) h = h

  abbrev pub References : Fields Num → Fields Num → Type 0
  References svc out =
      (get_field out (codes "image")
        ≡ Option.map (interpolate_value js env) (get_field svc (codes "image")))
      × (get_field out (codes "environment")
          ≡ Option.map interpolate_container (get_field svc (codes "environment")))
      × (get_field out (codes "volumes")
          ≡ Option.map interpolate_list (get_field svc (codes "volumes")))

  module _ (cfg global : Settings Num) where
    interpolate_service-References :
        (svc : Fields Num) → References svc (interpolate_service js env svc)
    unfolding interpolate_service equal
    interpolate_service-References svc =
        let imaged = image_step js env svc (get_field svc (codes "image")) in
        let environed = environment_step js env imaged (get_field imaged (codes "environment")) in
        (
          volumes_step_keeps js env cfg global environed _ (codes "image") refl
              ∙ environment_step_keeps js env cfg global imaged _ (codes "image") refl
              ∙ image_step_lem svc _ refl,
          volumes_step_keeps js env cfg global environed _ (codes "environment") refl
              ∙ environment_step_lem imaged _ refl
              ∙ ap (Option.map interpolate_container)
                  (image_step_keeps js env cfg global svc _ (codes "environment") refl),
          volumes_step_lem environed _ refl
              ∙ ap (Option.map interpolate_list) (
                  environment_step_keeps js env cfg global imaged _ (codes "volumes") refl
                  ∙ image_step_keeps js env cfg global svc _ (codes "volumes") refl),
        )

    later-Agrees :
        (svc : Fields Num) (k : Text)
        → equal (codes "deploy") k ≡ false
        → equal (codes "x-k1n-standby") k ≡ false
        → equal (codes "x-userns-remap") k ≡ false
        → Agrees js env cfg global
            (convert_fields js env cfg global svc)
            (get_field (interpolate_service js env (strip svc)) k)
            k
    unfolding convert_fields
    later-Agrees svc k hd hs hu = finish_keeps js env cfg global _ _ k _ _ hs hu (
        replicas_step_keeps js env cfg global (replicas_of js cfg global)
          (interpolate_service js env (strip svc)) k hd)

    later_keeps :
        (svc out : Fields Num) (k : Text)
        → convert_fields js env cfg global svc ≡ ok out
        → equal (codes "deploy") k ≡ false
        → equal (codes "x-k1n-standby") k ≡ false
        → equal (codes "x-userns-remap") k ≡ false
        → get_field out k ≡ get_field (interpolate_service js env (strip svc)) k
    later_keeps svc out k e hd hs hu = rw e at (later-Agrees svc k hd hs hu)

    -- In a converted service `image`, the values in `environment` and the entries of `volumes` are
    -- those of the file with their references replaced; a value that is no text is kept.
    pub convert_fields-References :
        (svc out : Fields Num) → convert_fields js env cfg global svc ≡ ok out → References svc out
    unfolding equal
    convert_fields-References svc out e =
        let (i, n, v) = interpolate_service-References (strip svc) in
        let u = strip_keeps svc in
        (
          later_keeps svc out (codes "image") e refl refl refl
              ∙ i
              ∙ ap (Option.map (interpolate_value js env))
                  (u (codes "image") (refl, (refl, (refl, (refl, tt))))),
          later_keeps svc out (codes "environment") e refl refl refl
              ∙ n
              ∙ ap (Option.map interpolate_container)
                  (u (codes "environment") (refl, (refl, (refl, (refl, tt))))),
          later_keeps svc out (codes "volumes") e refl refl refl
              ∙ v
              ∙ ap (Option.map interpolate_list)
                  (u (codes "volumes") (refl, (refl, (refl, (refl, tt))))),
        )
