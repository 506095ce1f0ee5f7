-- ===== src/Converter/Session/Complete.antt =====
-- In every state that the handlers reach, each service of the loaded file has settings of its own.
use p2ser.Base.{
  ◌≡◌, refl, ap, ◌∙◌, List, [], ◌∷◌, Option, some, none, All, true, inl, inr, Bool-cases, ◌⊎◌,
}
use p2ser.Dict.{Dict, get, put, get-put}
use p2ser.Json.Platform.{Platform, truthy}
use p2ser.Json.{Json, null, bool, num, str, arr, obj, Fields, get_field, object_keys}
use p2ser.Text.Equality.{equal_refl, equal_iff}
use p2ser.Text.{Text, codes, equal}
use p2ser.Converter.Convert.Global.{IsComplete, convert_compose_global}
use p2ser.Converter.Convert.Outcome.{coalesce, Settings, no_settings}
use p2ser.Converter.Convert.{settings_of}
use p2ser.Converter.EnvText.{parse_env}
use p2ser.Converter.Session.{
  Loaded, value, failed, Services, Edit, set_replicas, set_standby, set_userns, edit, Session,
  Event, yaml_read, env_read, env_edited, env_cleared, panel_toggled, service_edited, global_edited,
  drag_moved, env_drag_moved, deploy_clicked, deploy_answered, default_settings, initial,
  init_settings, accept, load_value, step, run, manifest_text, output_of, output_yaml,
}

edit-IsComplete :
    {Num : Type 0} (e : Edit Num) (s : Settings Num) → IsComplete s → IsComplete (edit e s)
edit-IsComplete (set_replicas n) s h = record {
  replicas_given = tt;
  standby_given = h.standby_given;
  userns_given = h.userns_given;
}
edit-IsComplete (set_standby n) s h = record {
  replicas_given = h.replicas_given;
  standby_given = tt;
  userns_given = h.userns_given;
}
edit-IsComplete (set_userns b) s h = record {
  replicas_given = h.replicas_given;
  standby_given = h.standby_given;
  userns_given = tt;
}

module _ (js : Platform) where
  open js use {Num}

  -- The settings under a name are there and complete.
  abbrev pub HasSettings : Dict (Settings Num) → Text → Type 0
  HasSettings settings name = (s : Settings Num) × (get settings name ≡ some s) × IsComplete s

  default-IsComplete : IsComplete (default_settings js)
  default-IsComplete = record { replicas_given = tt; standby_given = tt; userns_given = tt }

  put-HasSettings :
      (settings : Dict (Settings Num)) (k j : Text) (s : Settings Num)
      → IsComplete s
      → (equal k j ≡ true) ⊎ HasSettings settings j
      → HasSettings (put settings k s) j
  put-HasSettings settings k j s h (inl e) = (s, rw (get-put, e), h)
  put-HasSettings settings k j s h (inr (old, e, c)) = elim (Bool-cases (equal k j)) [
    | inl same ↦ (s, rw (get-put, same), h)
    | inr other ↦ (old, rw (get-put, other) e, c)
  ]

  init_keeps :
      (settings : Dict (Settings Num)) (names : List Text) (j : Text)
      → HasSettings settings j
      → HasSettings (init_settings js settings names) j
  unfolding init_settings
  init_keeps settings [] j h = h
  init_keeps settings (k ∷ names) j h =
      init_keeps (put settings k (default_settings js)) names j
        (put-HasSettings settings k j (default_settings js) default-IsComplete (inr h))

  init_covers :
      (settings : Dict (Settings Num)) (names : List Text)
      → All (HasSettings (init_settings js settings names)) names
  unfolding init_settings
  init_covers settings [] = tt
  init_covers settings (k ∷ names) = (
    init_keeps (put settings k (default_settings js)) names k (
        put-HasSettings settings k k (default_settings js) default-IsComplete (inl (equal_refl k))),
    init_covers (put settings k (default_settings js)) names,
  )

  -- What is loaded has services, and each of them has settings.
  abbrev pub IsCovered : Dict (Settings Num) → Option (Fields Num) → Type 0
  IsCovered settings none = Unit
  IsCovered settings (some p) =
      (services : Json Num) × (get_field p (codes "services") ≡ some services)
      × All (HasSettings settings) (object_keys services)

  abbrev pub IsReady : Session Num → Type 0
  IsReady s = IsCovered s.service_settings s.parsed

  accept-IsReady :
      (s : Session Num) (p : Fields Num) (o : Option (Json Num))
      → get_field p (codes "services") ≡ o
      → IsReady (accept js s p o)
  unfolding accept
  accept-IsReady s p none e = tt
  accept-IsReady s p (some services) e = elim (Bool-cases (truthy js services)) [
    | inl t ↦ rw t (services, e, init_covers [] (object_keys services))
    | inr t ↦ rw t tt
  ]

  load_value-IsReady : (s : Session Num) (r : Loaded Num) → IsReady (load_value js s r)
  unfolding load_value
  load_value-IsReady s (failed message) = tt
  load_value-IsReady s (value (obj p)) = accept-IsReady s p (get_field p (codes "services")) refl
  load_value-IsReady s (value null) = tt
  load_value-IsReady s (value (bool _)) = tt
  load_value-IsReady s (value (num _)) = tt
  load_value-IsReady s (value (str _)) = tt
  load_value-IsReady s (value (arr _)) = tt

  edit-HasSettings :
      (settings : Dict (Settings Num)) (k j : Text) (e : Edit Num)
      → HasSettings settings j
      → HasSettings (put settings k (edit e (coalesce (get settings k) no_settings))) j
  edit-HasSettings settings k j e (old, f, c) = elim (Bool-cases (equal k j)) [
    | inl same ↦
        let g = ap (λ (n : Text). get settings n) ((equal_iff k j).0 same) ∙ f in
        put-HasSettings settings k j _ (rw g (edit-IsComplete e old c)) (inl same)
    | inr other ↦ (old, rw (get-put, other) f, c)
  ]

  All-put-HasSettings :
      (settings : Dict (Settings Num)) (k : Text) (e : Edit Num) (names : List Text)
      → All (HasSettings settings) names
      → All (HasSettings (put settings k (edit e (coalesce (get settings k) no_settings)))) names
  All-put-HasSettings settings k e [] h = tt
  All-put-HasSettings settings k e (j ∷ names) (p, h) =
      (edit-HasSettings settings k j e p, All-put-HasSettings settings k e names h)

  edit-IsCovered :
      (settings : Dict (Settings Num)) (k : Text) (e : Edit Num) (o : Option (Fields Num))
      → IsCovered settings o
      → IsCovered (put settings k (edit e (coalesce (get settings k) no_settings))) o
  edit-IsCovered settings k e none h = tt
  edit-IsCovered settings k e (some p) (services, f, h) =
      (services, f, All-put-HasSettings settings k e (object_keys services) h)

  module _ (lib : Services js) where
    step-IsReady : (s : Session Num) (e : Event Num) → IsReady s → IsReady (step js lib s e)
    unfolding step
    step-IsReady s (yaml_read f) h = load_value-IsReady _ (lib.load f.content)
    step-IsReady s (service_edited name e) h = edit-IsCovered s.service_settings name e s.parsed h
    step-IsReady s deploy_clicked h = elim (Bool-cases s.deploying) [
      | inl d ↦ rw d h
      | inr d ↦ rw d h
    ]
    step-IsReady s (env_read f) h = h
    step-IsReady s (env_edited text) h = h
    step-IsReady s env_cleared h = h
    step-IsReady s panel_toggled h = h
    step-IsReady s (global_edited e) h = h
    step-IsReady s (drag_moved over) h = h
    step-IsReady s (env_drag_moved over) h = h
    step-IsReady s (deploy_answered r) h = h

    run-IsReady : (s : Session Num) (es : List (Event Num)) → IsReady s → IsReady (run js lib s es)
    unfolding run
    run-IsReady s [] h = h
    run-IsReady s (e ∷ es) h = run-IsReady (step js lib s e) es (step-IsReady s e h)

    settings_of-IsComplete :
        (settings : Dict (Settings Num)) (names : List Text)
        → All (HasSettings settings) names
        → All (λ name. IsComplete (settings_of js settings name)) names
    unfolding settings_of
    settings_of-IsComplete settings [] h = tt
    settings_of-IsComplete settings (name ∷ names) ((s, e, c), h) =
        (rw e c, settings_of-IsComplete settings names h)

    output_global :
        (iso_now : Text) (s : Session Num) (e : Edit Num) (o : Option (Fields Num))
        → IsCovered s.service_settings o
        → output_of js lib iso_now (step js lib s (global_edited e)) o
          ≡ output_of js lib iso_now s o
    unfolding output_of step
    output_global iso_now s e none h = refl
    output_global iso_now s e (some p) (services, f, h) =
        ap (manifest_text js lib iso_now s.file_name) (
          convert_compose_global js (parse_env s.env_text) s.service_settings
            (edit e s.global_settings) s.global_settings p services f
            (settings_of-IsComplete s.service_settings (object_keys services) h))

    same_parsed :
        (s : Session Num) (e : Edit Num) → (step js lib s (global_edited e)).parsed ≡ s.parsed
    unfolding step
    same_parsed s e = refl

    -- After any events, an edit of the settings for all services changes nothing in the manifest but
    -- the time in its header: what is generated after the edit, at whatever time, is what would
    -- have been generated at that time without it. Loading a file gives every service settings of
    -- its own, and nothing takes them away.
    pub output_yaml-global_edited :
        (es : List (Event Num)) (e : Edit Num) (iso_now : Text)
        → output_yaml js lib iso_now (step js lib (run js lib (initial js) es) (global_edited e))
          ≡ output_yaml js lib iso_now (run js lib (initial js) es)
    output_yaml-global_edited es e iso_now =
        let s = run js lib (initial js) es in
        ap (output_of js lib iso_now (step js lib s (global_edited e))) (same_parsed s e)
        ∙ output_global iso_now s e s.parsed (run-IsReady (initial js) es tt)
