-- ===== src/Tests/Card.antt =====
-- The card of a service against its manifest.
use p2ser.Base.{◌≡◌, refl, ℕ, true, some, [], ◌∷◌}
use p2ser.Converter.Card.Shown.{shown-convert_fields}
use p2ser.Converter.Card.{shown_replicas, shown_standby, shown_userns}
use p2ser.Converter.Convert.Outcome.{ok}
use p2ser.Converter.Convert.Service.{convert_fields}
use p2ser.Converter.Convert.{settings_of}
use p2ser.Converter.Session.{Session, initial}
use p2ser.Dict.{get}
use p2ser.Json.{Fields, bool, num, obj, get_field}
use p2ser.Tests.Data.{tiny_js, env, web}
use p2ser.Text.{codes, equal}

-- A loaded session with one service, whose number of replicas was set to 3
abbrev loaded : Session ℕ
loaded = record (initial tiny_js) {
  service_settings =
      (codes "web", record { replicas = some 3; standby = some 0; userns = some true }) ∷ [];
}

shows_replicas : shown_replicas loaded (codes "web") ≡ some 3
unfolding shown_replicas get equal
shows_replicas = refl

shows_standby : shown_standby loaded (codes "web") ≡ some 0
unfolding shown_standby get equal
shows_standby = refl

shows_userns : shown_userns loaded (codes "web") ≡ some true
unfolding shown_userns get equal
shows_userns = refl

shown-convert_fields_example :
    (out d : Fields ℕ) × (convert_fields tiny_js env
        (settings_of tiny_js loaded.service_settings (codes "web"))
        loaded.global_settings
        web
      ≡ ok out)
    × (get_field out (codes "deploy") ≡ some (obj d))
    × (get_field d (codes "replicas") ≡ some (num 3))
    × (get_field out (codes "x-userns-remap") ≡ some (bool true))
    × (get_field out (codes "x-k1n-standby") ≡ get_field web (codes "x-k1n-standby"))
unfolding get_field equal
shown-convert_fields_example =
    shown-convert_fields tiny_js loaded (codes "web") env web 3 0 true shows_replicas shows_standby
      shows_userns refl tt
