-- ===== src/Converter/Convert/Kept.antt =====
-- What the conversion of a service takes away and what it leaves as it was.
use p2ser.Base.{
  ◌≡◌, ◌≢◌, refl, ◌∙◌, arith, List, [], ◌∷◌, Option, some, none, All, true, false, Bool, inl, inr,
  Bool-cases, ◌⊎◌,
}
use mathlib.Core.Path.{subst}
use p2ser.Dict.{Dict}
use p2ser.Json.Laws.{get-put_field, get-remove_field}
use p2ser.Json.Platform.{Platform, truthy}
use p2ser.Json.{Json, arr, obj, Fields, get_field, put_field, remove_field}
use p2ser.Text.Equality.{equal_ne}
use p2ser.Text.{Text, codes, equal}
use p2ser.Converter.Convert.Outcome.{Result, ok, thrown, map_result, Settings}
use p2ser.Converter.Convert.Service.{
  strip, image_step, environment_step, volumes_step, interpolate_service, set_deploy, replicas_step,
  standby_step, userns_step, convert_fields, deploy_of, replicas_of,
}

abbrev pub removed_fields : List Text
removed_fields =
    codes "container_name" ∷ codes "healthcheck" ∷ codes "networks" ∷ codes "build" ∷ []

abbrev pub written_fields : List Text
written_fields =
    codes "image"
    ∷ codes "environment"
    ∷ codes "volumes"
    ∷ codes "deploy"
    ∷ codes "x-k1n-standby"
    ∷ codes "x-userns-remap"
    ∷ []

abbrev pub Untouched : List Text → Text → Type 0
Untouched js k = All (λ j. equal j k ≡ false) js

Untouched-of-ne : (js : List Text) (k : Text) → All (λ j. j ≢ k) js → Untouched js k
Untouched-of-ne [] k h = tt
Untouched-of-ne (j ∷ js) k (p, h) = (equal_ne j k p, Untouched-of-ne js k h)

module _ {Num : Type 0} (svc : Fields Num) where
  pub get-put_ne :
      (j k : Text) (v : Json Num)
      → equal j k ≡ false
      → get_field (put_field svc j v) k ≡ get_field svc k
  get-put_ne j k v h = rw (get-put_field, h)

  get-remove_ne :
      (j k : Text) → equal j k ≡ false → get_field (remove_field svc j) k ≡ get_field svc k
  get-remove_ne j k h = rw (get-remove_field, h)

  pub strip_keeps :
      (k : Text) → Untouched removed_fields k → get_field (strip svc) k ≡ get_field svc k
  unfolding strip
  strip_keeps k h = simp (get-remove_field, h.0, h.1.0, h.1.1.0, h.1.1.1.0)

  pub strip_removes :
      (k : Text)
      → (equal (codes "container_name") k ≡ true)
        ⊎ (equal (codes "healthcheck") k ≡ true)
        ⊎ (equal (codes "networks") k ≡ true)
        ⊎ (equal (codes "build") k ≡ true)
      → get_field (strip svc) k ≡ none
  unfolding strip
  strip_removes k h = simp get-remove_field (ground arith)

module _ (js : Platform) (env : Dict Text) (cfg global : Settings js.Num) where
  open js use {Num}

  pub image_step_keeps :
      (svc : Fields Num) (o : Option (Json Num)) (k : Text)
      → equal (codes "image") k ≡ false
      → get_field (image_step js env svc o) k ≡ get_field svc k
  unfolding image_step
  image_step_keeps svc none k h = refl
  image_step_keeps svc (some v) k h = elim (Bool-cases (truthy js v)) [
    | inl e ↦ rw e (get-put_ne svc _ k _ h)
    | inr e ↦ rw e
  ]

  pub environment_step_keeps :
      (svc : Fields Num) (o : Option (Json Num)) (k : Text)
      → equal (codes "environment") k ≡ false
      → get_field (environment_step js env svc o) k ≡ get_field svc k
  unfolding environment_step
  environment_step_keeps svc none k h = refl
  environment_step_keeps svc (some (arr vs)) k h = get-put_ne svc _ k _ h
  environment_step_keeps svc (some (obj fs)) k h = get-put_ne svc _ k _ h
  environment_step_keeps svc (some _) k h = refl

  pub volumes_step_keeps :
      (svc : Fields Num) (o : Option (Json Num)) (k : Text)
      → equal (codes "volumes") k ≡ false
      → get_field (volumes_step js env svc o) k ≡ get_field svc k
  unfolding volumes_step
  volumes_step_keeps svc none k h = refl
  volumes_step_keeps svc (some (arr vs)) k h = get-put_ne svc _ k _ h
  volumes_step_keeps svc (some _) k h = refl

  pub interpolate_service_keeps :
      (svc : Fields Num) (k : Text)
      → equal (codes "image") k ≡ false
      → equal (codes "environment") k ≡ false
      → equal (codes "volumes") k ≡ false
      → get_field (interpolate_service js env svc) k ≡ get_field svc k
  unfolding interpolate_service
  interpolate_service_keeps svc k hi he hv =
      volumes_step_keeps _ _ k hv ∙ environment_step_keeps _ _ k he ∙ image_step_keeps svc _ k hi

  pub standby_step_keeps :
      (n : Num) (svc : Fields Num) (k : Text)
      → equal (codes "x-k1n-standby") k ≡ false
      → get_field (standby_step js n svc) k ≡ get_field svc k
  unfolding standby_step
  standby_step_keeps n svc k h = elim (Bool-cases (js.positive n)) [
    | inl e ↦ rw e (get-put_ne svc _ k _ h)
    | inr e ↦ rw e
  ]

  pub userns_step_keeps :
      (b : Bool) (svc : Fields Num) (k : Text)
      → equal (codes "x-userns-remap") k ≡ false
      → get_field (userns_step js b svc) k ≡ get_field svc k
  unfolding userns_step
  userns_step_keeps b svc k h = get-put_ne svc _ k _ h

  -- On the way out a fault says nothing.
  abbrev pub Agrees : Result (Fields Num) → Option (Json Num) → Text → Type 0
  Agrees (ok out) v k = get_field out k ≡ v
  Agrees (thrown e) v k = Unit

  map_result_keeps :
      (svc : Fields Num) (r : Result (Json Num)) (k : Text)
      → equal (codes "deploy") k ≡ false
      → Agrees (map_result (put_field svc (codes "deploy")) r) (get_field svc k) k
  map_result_keeps svc (ok v) k h = get-put_ne svc _ k v h
  map_result_keeps svc (thrown e) k h = tt

  pub set_deploy_keeps :
      (n : Num) (svc : Fields Num) (o : Option (Json Num)) (k : Text)
      → equal (codes "deploy") k ≡ false
      → Agrees (set_deploy js n svc o) (get_field svc k) k
  unfolding set_deploy
  set_deploy_keeps n svc none k h = get-put_ne svc _ k _ h
  set_deploy_keeps n svc (some v) k h = map_result_keeps svc (deploy_of js n v) k h

  pub replicas_step_keeps :
      (n : Num) (svc : Fields Num) (k : Text)
      → equal (codes "deploy") k ≡ false
      → Agrees (replicas_step js n svc) (get_field svc k) k
  unfolding replicas_step
  replicas_step_keeps n svc k h = elim (Bool-cases (js.positive n)) [
    | inl e ↦ rw e (set_deploy_keeps n svc (get_field svc (codes "deploy")) k h)
    | inr e ↦ rw e refl
  ]

  pub finish_keeps :
      (r : Result (Fields Num)) (v : Option (Json Num)) (k : Text) (b : Bool) (n : Num)
      → equal (codes "x-k1n-standby") k ≡ false
      → equal (codes "x-userns-remap") k ≡ false
      → Agrees r v k
      → Agrees (map_result (λ deployed. userns_step js b (standby_step js n deployed)) r) v k
  finish_keeps (ok svc) v k b n hs hu h =
      userns_step_keeps b (standby_step js n svc) k hu ∙ standby_step_keeps n svc k hs ∙ h
  finish_keeps (thrown e) v k b n hs hu h = tt

  pub convert_fields-Agrees :
      (svc : Fields Num) (k : Text)
      → Untouched written_fields k
      → Agrees (convert_fields js env cfg global svc) (get_field (strip svc) k) k
  unfolding convert_fields
  convert_fields-Agrees svc k (hi, (he, (hv, (hd, (hs, (hu, _)))))) = finish_keeps _ _ k _ _ hs hu (
      subst
        (λ v.
          Agrees
            (replicas_step js (replicas_of js cfg global) (interpolate_service js env (strip svc)))
            v k)
        (interpolate_service_keeps (strip svc) k hi he hv)
        (replicas_step_keeps _ (interpolate_service js env (strip svc)) k hd))

  -- A field that the conversion neither removes nor writes is as it was in the file.
  pub convert_fields_keeps :
      (svc out : Fields Num) (k : Text)
      → convert_fields js env cfg global svc ≡ ok out
      → All (λ j. j ≢ k) removed_fields
      → All (λ j. j ≢ k) written_fields
      → get_field out k ≡ get_field svc k
  convert_fields_keeps svc out k e hr hw =
      (rw e at (convert_fields-Agrees svc k (Untouched-of-ne written_fields k hw)))
      ∙ strip_keeps svc k (Untouched-of-ne removed_fields k hr)

  removes :
      (svc out : Fields Num) (k : Text)
      → convert_fields js env cfg global svc ≡ ok out
      → (equal (codes "container_name") k ≡ true)
        ⊎ (equal (codes "healthcheck") k ≡ true)
        ⊎ (equal (codes "networks") k ≡ true)
        ⊎ (equal (codes "build") k ≡ true)
      → Untouched written_fields k
      → get_field out k ≡ none
  removes svc out k e one h = (rw e at (convert_fields-Agrees svc k h)) ∙ strip_removes svc k one

  -- A converted service has no `container_name`, `healthcheck`, `networks` or `build`.
  pub convert_fields_removes :
      (svc out : Fields Num)
      → convert_fields js env cfg global svc ≡ ok out
      → All (λ k. get_field out k ≡ none) removed_fields
  unfolding equal
  convert_fields_removes svc out e = (
    removes svc out (codes "container_name") e (inl refl)
        (refl, (refl, (refl, (refl, (refl, (refl, tt)))))),
    (
      removes svc out (codes "healthcheck") e (inr (inl refl))
          (refl, (refl, (refl, (refl, (refl, (refl, tt)))))),
      (
        removes svc out (codes "networks") e (inr (inr (inl refl)))
            (refl, (refl, (refl, (refl, (refl, (refl, tt)))))),
        (
          removes svc out (codes "build") e (inr (inr (inr refl)))
              (refl, (refl, (refl, (refl, (refl, (refl, tt)))))),
          tt,
        ),
      ),
    ),
  )
