-- ===== src/Converter/Convert/Written.antt =====
-- What the conversion of a service writes: the settings, and the values with references replaced.
use p2ser.Base.{
  ◌≡◌, refl, ap, ◌∙◌, Option, some, none, true, Bool, if◌then◌else◌, inl, inr, Bool-cases,
}
use p2ser.Dict.{Dict}
use p2ser.Json.Laws.{get-put_field}
use p2ser.Json.Platform.{Platform, truthy}
use p2ser.Json.{Json, null, bool, num, str, arr, obj, Fields, end, field, get_field, put_field}
use p2ser.Text.Equality.{equal_refl}
use p2ser.Text.{Text, codes, equal}
use p2ser.Converter.Convert.Kept.{
  get-put_ne, strip_keeps, interpolate_service_keeps, standby_step_keeps, userns_step_keeps,
}
use p2ser.Converter.Convert.Outcome.{ok, Settings}
use p2ser.Converter.Convert.Service.{
  strip, interpolate_service, set_deploy, replicas_step, standby_step, userns_step, convert_fields,
  deploy_of, replicas_of, standby_of, userns_of,
}

module _ {Num : Type 0} where
  -- `deploy` may be left out, be empty in the file, or be an object.
  abbrev pub IsDeploy : Option (Json Num) → Type 0
  IsDeploy none = Unit
  IsDeploy (some null) = Unit
  IsDeploy (some (obj d)) = Unit
  IsDeploy (some _) = ⊥

  abbrev pub deploy_fields : Option (Json Num) → Fields Num
  deploy_fields none = end
  deploy_fields (some (obj d)) = d
  deploy_fields (some _) = end

  get-put_self :
      (svc : Fields Num) (k : Text) (v : Json Num) → get_field (put_field svc k v) k ≡ some v
  get-put_self svc k v = rw (get-put_field, equal_refl k)

module _ (js : Platform) where
  open js use {Num, positive}

  -- `deploy` with its number of replicas set, and every other field as it was.
  abbrev pub IsDeployed : Num → Option (Json Num) → Fields Num → Type 0
  IsDeployed n o d =
      (k : Text)
      → get_field d k
        ≡ (if equal (codes "replicas") k then some (num n) else get_field (deploy_fields o) k)

  put-IsDeployed :
      (n : Num) (o : Option (Json Num)) (d : Fields Num)
      → d ≡ deploy_fields o
      → IsDeployed n o (put_field d (codes "replicas") (num n))
  put-IsDeployed n o d e k =
      get-put_field d (codes "replicas") k (num n)
      ∙ ap (λ (f : Fields Num). if equal (codes "replicas") k then some (num n) else get_field f k)
          e

  new-IsDeployed :
      (n : Num) (o : Option (Json Num))
      → end ≡ deploy_fields o
      → IsDeployed n o (field (codes "replicas") (num n) end)
  unfolding put_field
  new-IsDeployed n o e = put-IsDeployed n o end e

  set_deploy_total :
      (n : Num) (svc : Fields Num) (o : Option (Json Num))
      → IsDeploy o
      → (d : Fields Num) × (set_deploy js n svc o ≡ ok (put_field svc (codes "deploy") (obj d)))
        × IsDeployed n o d
  unfolding set_deploy deploy_of truthy
  set_deploy_total n svc none h = (_, refl, new-IsDeployed n none refl)
  set_deploy_total n svc (some null) h =
      (field (codes "replicas") (num n) end, refl, new-IsDeployed n (some null) refl)
  set_deploy_total n svc (some (obj d)) h = (_, refl, put-IsDeployed n (some (obj d)) d refl)
  set_deploy_total n svc (some (bool _)) h = absurd h
  set_deploy_total n svc (some (num _)) h = absurd h
  set_deploy_total n svc (some (str _)) h = absurd h
  set_deploy_total n svc (some (arr _)) h = absurd h

  module _ (env : Dict Text) (cfg global : Settings Num) where
    set_deploy_written :
        (n : Num) (svc : Fields Num)
        → positive n ≡ true
        → IsDeploy (get_field svc (codes "deploy"))
        → (d : Fields Num) × (replicas_step js n svc ≡ ok (put_field svc (codes "deploy") (obj d)))
          × IsDeployed n (get_field svc (codes "deploy")) d
    unfolding replicas_step
    set_deploy_written n svc h fits =
        rw h (set_deploy_total n svc (get_field svc (codes "deploy")) fits)

    prepared_deploy :
        (svc : Fields Num)
        → get_field (interpolate_service js env (strip svc)) (codes "deploy")
          ≡ get_field svc (codes "deploy")
    unfolding equal
    prepared_deploy svc =
        interpolate_service_keeps js env cfg global (strip svc) (codes "deploy") refl refl refl
        ∙ strip_keeps svc (codes "deploy") (refl, (refl, (refl, (refl, tt))))

    get-userns_step :
        (b : Bool) (svc : Fields Num)
        → get_field (userns_step js b svc) (codes "x-userns-remap") ≡ some (bool b)
    unfolding userns_step
    get-userns_step b svc = rw (get-put_field, equal_refl (codes "x-userns-remap"))

    get-standby_step :
        (n : Num) (svc : Fields Num)
        → get_field (standby_step js n svc) (codes "x-k1n-standby")
          ≡ (if positive n then some (num n) else get_field svc (codes "x-k1n-standby"))
    unfolding standby_step
    get-standby_step n svc = elim (Bool-cases (positive n)) [
      | inl e ↦ rw (e, get-put_field, equal_refl (codes "x-k1n-standby"))
      | inr e ↦ rw e
    ]

    -- The settings stand in the converted service.
    pub record Written (svc out : Fields Num) : Type 0 where
      pub deploy : Fields Num
      pub deploy_at : get_field out (codes "deploy") ≡ some (obj deploy)
      pub deployed : IsDeployed (replicas_of js cfg global) (get_field svc (codes "deploy")) deploy
      pub standby_at : get_field out (codes "x-k1n-standby") ≡ (
          if positive (standby_of js cfg global)
          then some (num (standby_of js cfg global))
          else get_field svc (codes "x-k1n-standby"))
      pub userns_at : get_field out (codes "x-userns-remap") ≡ some (bool (userns_of js cfg global))

    module _ (svc prepared : Fields Num) (d : Fields Num) where
      abbrev finished : Fields Num
      finished =
          userns_step js (userns_of js cfg global) (
            standby_step js (standby_of js cfg global)
              (put_field prepared (codes "deploy") (obj d)))

      finished_deploy : get_field finished (codes "deploy") ≡ some (obj d)
      unfolding equal
      finished_deploy =
          userns_step_keeps js env cfg global _ _ (codes "deploy") refl
          ∙ standby_step_keeps js env cfg global _ _ (codes "deploy") refl
          ∙ get-put_self prepared (codes "deploy") (obj d)

      finished_standby :
          get_field prepared (codes "x-k1n-standby") ≡ get_field svc (codes "x-k1n-standby")
          → get_field finished (codes "x-k1n-standby") ≡ (
              if positive (standby_of js cfg global)
              then some (num (standby_of js cfg global))
              else get_field svc (codes "x-k1n-standby"))
      unfolding equal
      finished_standby same =
          userns_step_keeps js env cfg global _ _ (codes "x-k1n-standby") refl
          ∙ get-standby_step (standby_of js cfg global) _
          ∙ ap
              (λ (o : Option (Json Num)).
                if positive (standby_of js cfg global)
                then some (num (standby_of js cfg global))
                else o)
              (get-put_ne prepared (codes "deploy") (codes "x-k1n-standby") (obj d) refl ∙ same)

    prepared_standby :
        (svc : Fields Num)
        → get_field (interpolate_service js env (strip svc)) (codes "x-k1n-standby")
          ≡ get_field svc (codes "x-k1n-standby")
    unfolding equal
    prepared_standby svc =
        interpolate_service_keeps js env cfg global (strip svc) (codes "x-k1n-standby") refl refl
          refl
        ∙ strip_keeps svc (codes "x-k1n-standby") (refl, (refl, (refl, (refl, tt))))

    -- With a positive number of replicas, and a `deploy` that is left out, empty or an object, the
    -- conversion of a service succeeds: `deploy.replicas` is that number and the rest of `deploy`
    -- is kept, `x-k1n-standby` is the number of standbys if that is positive and is kept if not,
    -- and `x-userns-remap` is the flag.
    pub convert_fields_writes :
        (svc : Fields Num)
        → positive (replicas_of js cfg global) ≡ true
        → IsDeploy (get_field svc (codes "deploy"))
        → (out : Fields Num) × (convert_fields js env cfg global svc ≡ ok out) × Written svc out
    unfolding convert_fields
    convert_fields_writes svc h fits =
        let prepared = interpolate_service js env (strip svc) in
        let same = prepared_deploy svc in
        let (d, e, deployed) =
          set_deploy_written (replicas_of js cfg global) prepared h (rw same fits) in
        (
          finished svc prepared d,
          rw e,
          record {
            deploy = d;
            deploy_at = finished_deploy svc prepared d;
            deployed = rw same at deployed;
            standby_at = finished_standby svc prepared d (prepared_standby svc);
            userns_at = get-userns_step (userns_of js cfg global) _;
          },
        )
