-- ===== src/Converter/Card.antt =====
-- What the pages of `ComposeConverter` show of its state, and the handlers that stand in its markup
-- (ui/src/App.jsx).
pub mod Shown
use p2ser.Base.{
  ℕ, zero, suc, Bool, true, false, ltb, List, [], ◌∷◌, ◌++◌, if◌then◌else◌, Option, none, some,
  length,
}
use p2ser.Backend.Store.Cursor.{has_prefix}
use p2ser.Converter.Convert.Outcome.{Settings}
use p2ser.Converter.Files.{File}
use p2ser.Converter.Session.{Session, Event, env_drag_moved, env_read}
use p2ser.Dict.{Dict, get}
use p2ser.Json.{index_key}
use p2ser.Text.{Text, codes, truthy_text}

-- `a ?? b`, which may be `undefined`
abbrev pub or_else {ℓ} : {A : Type ℓ} → Option A → Option A → Option A
or_else none b = b
or_else (some a) b = some a

-- `f?.key`
abbrev pub chained {ℓ κ} : {A : Type ℓ} {B : Type κ} → Option A → (A → Option B) → Option B
chained none key = none
chained (some a) key = key a

module _ {Num : Type 0} where
  -- The three inputs of the card of a service
  unfoldable pub shown_replicas : Session Num → Text → Option Num
  shown_replicas s name =
      or_else (chained (get s.service_settings name) (λ c. c.replicas)) s.global_settings.replicas

  unfoldable pub shown_standby : Session Num → Text → Option Num
  shown_standby s name =
      or_else (chained (get s.service_settings name) (λ c. c.standby)) s.global_settings.standby

  unfoldable pub shown_userns : Session Num → Text → Option Bool
  shown_userns s name =
      or_else (chained (get s.service_settings name) (λ c. c.userns)) s.global_settings.userns

  -- The handler of a drop on the field for `.env`
  unfoldable pub drop_env : List File → List (Event Num)
  drop_env [] = env_drag_moved false ∷ []
  drop_env (f ∷ fs) = env_drag_moved false ∷ env_read f ∷ []

  unfoldable pub file_label : Session Num → Text
  file_label s =
      if truthy_text s.file_name then codes "✓ " ++ s.file_name else codes "docker-compose.yaml"

  unfoldable pub env_hint : Session Num → Text
  env_hint s = if truthy_text s.env_file_name then s.env_file_name else codes "перетягни або клікни"

  unfoldable pub panel_label : Session Num → Text
  panel_label s = if s.show_env_panel then codes "сховати" else codes "редагувати"

  -- The message of a deployment is green.
  unfoldable pub is_green : Session Num → Bool
  is_green s = has_prefix (codes "✅") s.deploy_msg

-- The number of variables, of their names
unfoldable pub count_label : List Text → Text
count_label [] = codes ".env файл"
count_label (name ∷ names) = index_key (length (name ∷ names)) ++ codes " змінних"

unfoldable pub first_units : ℕ → Text → Text
first_units zero s = []
first_units (suc n) [] = []
first_units (suc n) (c ∷ s) = c ∷ first_units n s

-- The value of a variable in the preview
unfoldable pub preview : Text → Text
unfolding first_units
preview v = if ltb 20 (length v) then first_units 20 v ++ codes "…" else v
