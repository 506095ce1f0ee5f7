-- ===== src/Converter/Session.antt =====
-- The state of the component `ComposeConverter` and its handlers; what a file reader or the network
-- answers comes in as an event of its own.
pub mod Complete
pub mod Order
pub mod Request
use p2ser.Base.{
  ℕ, Bool, true, false, not, ◌&&◌, ◌||◌, List, [], ◌∷◌, ◌++◌, if◌then◌else◌, Option, none, some,
}
use p2ser.Api.{Reply, response, failure}
use p2ser.Dict.{Dict, get, put, keys}
use p2ser.Json.Platform.{Platform, truthy}
use p2ser.Json.{Json, null, bool, num, str, arr, obj, Fields, get_field, object_keys}
use p2ser.Text.{Text, codes, truthy_text, trim}
use p2ser.Converter.Convert.Outcome.{Fault, Result, ok, thrown, coalesce, Settings, no_settings}
use p2ser.Converter.Convert.{convert_compose}
use p2ser.Converter.EnvText.{parse_env}
use p2ser.Converter.Files.{File, is_env_file, is_yaml_file, find_file}

-- What `yaml.load` gives: a value or the message of what it throws.
pub data Loaded (Num : Type 0) : Type 0 where
  value : Json Num → Loaded Num
  failed : Text → Loaded Num

-- js-yaml and the messages of the engine's errors.
pub record Services (js : Platform) : Type 0 where
  pub load : Text → Loaded js.Num
  pub dump : Fields js.Num → Text
  pub message : Fault → Text

-- One of the inputs of a settings card.
pub data Edit (Num : Type 0) : Type 0 where
  set_replicas : Num → Edit Num
  set_standby : Num → Edit Num
  set_userns : Bool → Edit Num

-- `{ ...s, [key]: val }`
abbrev pub edit : {Num : Type 0} → Edit Num → Settings Num → Settings Num
edit (set_replicas n) s = record s { replicas = some n }
edit (set_standby n) s = record s { standby = some n }
edit (set_userns b) s = record s { userns = some b }

pub record Session (Num : Type 0) : Type 0 where
  pub drag_over : Bool
  pub drag_over_env : Bool
  pub source_yaml : Text
  pub parsed : Option (Fields Num)
  pub parse_error : Text
  pub file_name : Text
  pub env_text : Text
  pub env_file_name : Text
  pub show_env_panel : Bool
  pub global_settings : Settings Num
  pub service_settings : Dict (Settings Num)
  pub deploying : Bool
  pub deploy_msg : Text

pub data Event (Num : Type 0) : Type 0 where
  yaml_read : File → Event Num
  env_read : File → Event Num
  env_edited : Text → Event Num
  env_cleared : Event Num
  panel_toggled : Event Num
  service_edited : Text → Edit Num → Event Num
  global_edited : Edit Num → Event Num
  drag_moved : Bool → Event Num
  env_drag_moved : Bool → Event Num
  deploy_clicked : Event Num
  deploy_answered : Reply → Event Num

module _ (js : Platform) where
  open js use {Num, zero_num, one_num}

  -- `{ replicas: 1, standby: 0, userns: false }`
  abbrev pub default_settings : Settings Num
  default_settings = record {
    replicas = some one_num;
    standby = some zero_num;
    userns = some false;
  }

  abbrev pub initial : Session Num
  initial = record {
    drag_over = false;
    drag_over_env = false;
    source_yaml = [];
    parsed = none;
    parse_error = [];
    file_name = [];
    env_text = [];
    env_file_name = [];
    show_env_panel = false;
    global_settings = default_settings;
    service_settings = [];
    deploying = false;
    deploy_msg = [];
  }

  -- `Object.keys(p.services).forEach(s => { init[s] = … })`
  unfoldable pub init_settings : Dict (Settings Num) → List Text → Dict (Settings Num)
  init_settings settings [] = settings
  init_settings settings (name ∷ names) = init_settings (put settings name default_settings) names

  abbrev no_services : Text
  no_services = codes "Відсутній розділ 'services'"

  -- `setParsed(null); setParseError(e.message)`
  unfoldable pub reject : Session Num → Text → Session Num
  reject s message = record s { parsed = none; parse_error = message }

  unfoldable pub accept : Session Num → Fields Num → Option (Json Num) → Session Num
  unfolding reject init_settings
  accept s p none = reject s no_services
  accept s p (some services) =
      if truthy js services
      then record s {
        parsed = some p;
        parse_error = [];
        service_settings = init_settings [] (object_keys services);
      }
      else reject s no_services

  -- `if (!p || !p.services) throw …`; no value but an object has `services`.
  unfoldable pub load_value : Session Num → Loaded Num → Session Num
  unfolding accept reject
  load_value s (failed message) = reject s message
  load_value s (value (obj p)) = accept s p (get_field p (codes "services"))
  load_value s (value v) = reject s no_services

  module _ (lib : Services js) where
    open lib use {load, dump, message}

    unfoldable pub load_yaml : Session Num → Text → Text → Session Num
    load_yaml s text name =
        load_value (record s { file_name = name; source_yaml = text; deploy_msg = [] }) (load text)

    unfoldable pub load_env : Session Num → Text → Text → Session Num
    load_env s text name = record s { env_text = text; env_file_name = name; show_env_panel = true }

    -- `setSvc`, where `prev[name]` may be `undefined`
    unfoldable pub set_service : Session Num → Text → Edit Num → Session Num
    set_service s name e = record s {
      service_settings =
          put s.service_settings name (edit e (coalesce (get s.service_settings name) no_settings));
    }

    unfoldable pub reply_text : Reply → Text
    reply_text (response true txt) =
        codes "✅ " ++ (if truthy_text txt then txt else codes "Маніфест прийнято кластером!")
    reply_text (response false txt) = codes "❌ Помилка: " ++ txt
    reply_text (failure why) = codes "❌ " ++ why

    -- `deployManifest` up to its request; the button is disabled while a request is on its way.
    unfoldable pub start_deploy : Session Num → Session Num
    start_deploy s = if s.deploying then s else record s { deploying = true; deploy_msg = [] }

    -- The headers and the body of the request to `/compose`; `encode` is
    -- `btoa(unescape(encodeURIComponent(…)))`.
    unfoldable pub compose_headers : (Text → Text) → Text → Dict Text
    compose_headers encode env_text =
        let headers = (codes "Content-Type", codes "application/x-yaml") ∷ [] in
        if truthy_text (trim env_text)
        then put headers (codes "X-Env-Vars") (encode env_text)
        else headers

    unfoldable pub step : Session Num → Event Num → Session Num
    unfolding load_yaml load_env set_service start_deploy reply_text
    step s (yaml_read f) = load_yaml s f.content f.name
    step s (env_read f) = load_env s f.content f.name
    step s (env_edited text) = record s { env_text = text }
    step s env_cleared = record s { env_text = []; env_file_name = []; show_env_panel = false }
    step s panel_toggled = record s { show_env_panel = not s.show_env_panel }
    step s (service_edited name e) = set_service s name e
    step s (global_edited e) = record s { global_settings = edit e s.global_settings }
    step s (drag_moved over) = record s { drag_over = over }
    step s (env_drag_moved over) = record s { drag_over_env = over }
    step s deploy_clicked = start_deploy s
    step s (deploy_answered r) = record s { deploy_msg = reply_text r; deploying = false }

    unfoldable pub run : Session Num → List (Event Num) → Session Num
    run s [] = s
    run s (e ∷ es) = run (step s e) es

    -- `onDrop`: the readers that are started, each of which ends in an event.
    unfoldable pub read_env : Option File → List (Event Num)
    read_env none = []
    read_env (some f) = env_read f ∷ []

    unfoldable pub read_yaml : Option File → List (Event Num)
    read_yaml none = []
    read_yaml (some f) = yaml_read f ∷ []

    unfoldable pub drop_files : List File → List (Event Num)
    unfolding read_env read_yaml
    drop_files files =
        drag_moved false ∷ read_env (find_file is_env_file files)
        ++ read_yaml (find_file is_yaml_file files)

    -- The effect that regenerates the output, with the time at which it runs, as
    -- `new Date().toISOString()` writes it.
    unfoldable pub manifest_text : Text → Text → Result (Fields Num) → Text
    manifest_text iso_now file_name (ok converted) =
        codes "# P2SER Manifest — конвертовано з "
        ++ (if truthy_text file_name then file_name else codes "docker-compose.yaml")
        ++ codes "\n# Згенеровано: "
        ++ iso_now
        ++ codes "\n\n"
        ++ dump converted
    manifest_text iso_now file_name (thrown e) = codes "# Помилка генерації: " ++ message e

    unfoldable pub output_of : Text → Session Num → Option (Fields Num) → Text
    output_of iso_now s none = []
    output_of iso_now s (some p) =
        manifest_text iso_now s.file_name
          (convert_compose js p s.service_settings s.global_settings (parse_env s.env_text))

    abbrev pub output_yaml : Text → Session Num → Text
    output_yaml iso_now s = output_of iso_now s s.parsed

    -- `envText.trim() ? Object.keys(parseEnvText(envText)) : []`
    unfoldable pub env_names : Session Num → List Text
    env_names s = if truthy_text (trim s.env_text) then keys (parse_env s.env_text) else []
