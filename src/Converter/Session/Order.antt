-- ===== src/Converter/Session/Order.antt =====
-- The two readers that a drop starts may end in either order.
use p2ser.Base.{◌≡◌, refl, ap, List, [], ◌∷◌, Option, some, none, true, inl, inr, Bool-cases}
use p2ser.Json.Platform.{Platform, truthy}
use p2ser.Json.{Json, null, bool, num, str, arr, obj, Fields, get_field}
use p2ser.Converter.Files.{File}
use p2ser.Converter.Session.{
  Loaded, value, failed, Services, Session, Event, yaml_read, env_read, accept, load_value,
  load_yaml, step, run,
}

module _ (js : Platform) where
  open js use {Num}

  abbrev with_env : Session Num → File → Session Num
  with_env s f = record s { env_text = f.content; env_file_name = f.name; show_env_panel = true }

  accept-with_env :
      (s : Session Num) (f : File) (p : Fields Num) (o : Option (Json Num))
      → accept js (with_env s f) p o ≡ with_env (accept js s p o) f
  unfolding accept
  accept-with_env s f p none = refl
  accept-with_env s f p (some services) = elim (Bool-cases (truthy js services)) [
    | inl t ↦ rw t
    | inr t ↦ rw t
  ]

  load_value-with_env :
      (s : Session Num) (f : File) (r : Loaded Num)
      → load_value js (with_env s f) r ≡ with_env (load_value js s r) f
  unfolding load_value
  load_value-with_env s f (failed message) = refl
  load_value-with_env s f (value (obj p)) = accept-with_env s f p (get_field p _)
  load_value-with_env s f (value null) = refl
  load_value-with_env s f (value (bool _)) = refl
  load_value-with_env s f (value (num _)) = refl
  load_value-with_env s f (value (str _)) = refl
  load_value-with_env s f (value (arr _)) = refl

  module _ (lib : Services js) where
    -- Where a drop holds an `.env` file and a YAML file, the state after both are read does not
    -- depend on which is read first.
    pub run_readers_comm :
        (s : Session Num) (env yaml : File) (later : List (Event Num))
        → run js lib s (env_read env ∷ yaml_read yaml ∷ later)
          ≡ run js lib s (yaml_read yaml ∷ env_read env ∷ later)
    unfolding run step load_yaml
    run_readers_comm s env yaml later =
        ap (λ (t : Session Num). run js lib t later)
          (load_value-with_env
            (record s { file_name = yaml.name; source_yaml = yaml.content; deploy_msg = [] }) env
            (lib.load yaml.content))
