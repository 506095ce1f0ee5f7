-- ===== src/Converter/Card/Shown.antt =====
-- What the cards show, and what the manifest has.
use p2ser.Base.{
  ◌≡◌, refl, ap, sym, arith, ◌∙◌, true, false, Bool, Option, none, some, if◌then◌else◌,
}
use p2ser.Api.{Reply, response, failure}
use p2ser.Backend.Store.Cursor.{has_prefix}
use p2ser.Converter.Card.{or_else, chained, shown_replicas, shown_standby, shown_userns, is_green}
use p2ser.Converter.Convert.Outcome.{ok, Settings, coalesce, no_settings}
use p2ser.Converter.Convert.Service.{convert_fields}
use p2ser.Converter.Convert.Written.{IsDeploy, convert_fields_writes}
use p2ser.Converter.Convert.{settings_of}
use p2ser.Converter.Session.{Session, Services, step, deploy_answered, reply_text}
use p2ser.Dict.{Dict, get}
use p2ser.Json.Platform.{Platform}
use p2ser.Json.{Fields, bool, num, obj, get_field}
use p2ser.Text.{Text, codes, equal}

abbrev pub is_accepted : Reply → Bool
is_accepted (response accepted text) = accepted
is_accepted (failure why) = false

coalesce-or_else :
    {A : Type 0} (own global : Option A) (fallback shown : A)
    → or_else own global ≡ some shown
    → coalesce own (coalesce global fallback) ≡ shown
coalesce-or_else none none fallback shown e = absurd (ground arith)
coalesce-or_else none (some b) fallback shown e = ground (arith, e)
coalesce-or_else (some a) global fallback shown e = ground (arith, e)

module _ (js : Platform) where
  open js use {Num, parse_int, positive}

  chained-settings :
      {A : Type 0} (own : Option (Settings Num)) (key : Settings Num → Option A)
      → key no_settings ≡ none
      → chained own key ≡ key (coalesce own no_settings)
  chained-settings none key h = sym h
  chained-settings (some s) key h = refl

  module _ (s : Session Num) (name : Text) where
    abbrev cfg : Settings Num
    cfg = settings_of js s.service_settings name

    -- The inputs of a card hold the settings that the conversion uses.
    shown_used :
        {A : Type 0} (key : Settings Num → Option A) (fallback shown : A)
        → key no_settings ≡ none
        → or_else (chained (get s.service_settings name) key) (key s.global_settings) ≡ some shown
        → coalesce (key cfg) (coalesce (key s.global_settings) fallback) ≡ shown
    unfolding settings_of
    shown_used key fallback shown h e =
        let own = get s.service_settings name in
        coalesce-or_else (key (coalesce own no_settings)) (key s.global_settings) fallback shown
          (ap (λ o. or_else o (key s.global_settings)) (sym (chained-settings own key h)) ∙ e)

    -- What the manifest has for a service is read from the numbers that its card shows, where
    -- `parseInt` of the shown number of replicas is positive and the `deploy` of the file is left
    -- out, empty or an object: `deploy.replicas` is `parseInt` of the shown number, which need not
    -- be whole, `x-userns-remap` is the shown flag, and `x-k1n-standby` is `parseInt` of the shown
    -- number of standbys, if that is positive; if it is not, the number of the file stays.
    pub shown-convert_fields :
        (env : Dict Text) (svc : Fields Num) (replicas standby : Num) (userns : Bool)
        → shown_replicas s name ≡ some replicas
        → shown_standby s name ≡ some standby
        → shown_userns s name ≡ some userns
        → positive (parse_int replicas) ≡ true
        → IsDeploy (get_field svc (codes "deploy"))
        → (out d : Fields Num) × (convert_fields js env
              (settings_of js s.service_settings name)
              s.global_settings
              svc
            ≡ ok out)
          × (get_field out (codes "deploy") ≡ some (obj d))
          × (get_field d (codes "replicas") ≡ some (num (parse_int replicas)))
          × (get_field out (codes "x-userns-remap") ≡ some (bool userns))
          × (get_field out (codes "x-k1n-standby") ≡ (
              if positive (parse_int standby)
              then some (num (parse_int standby))
              else get_field svc (codes "x-k1n-standby")))
    unfolding shown_replicas shown_standby shown_userns equal
    shown-convert_fields env svc replicas standby userns r b u pos fits =
        let global = s.global_settings in
        let r' = ap parse_int (shown_used (λ c. c.replicas) js.one_num replicas refl r) in
        let b' = ap parse_int (shown_used (λ c. c.standby) js.zero_num standby refl b) in
        let u' = shown_used (λ c. c.userns) false userns refl u in
        let (out, e, w) = convert_fields_writes js env cfg global svc (rw r' pos) fits in
        (
          out,
          w.deploy,
          e,
          w.deploy_at,
          rw r' at (w.deployed (codes "replicas")),
          rw u' at w.userns_at,
          rw b' at w.standby_at,
        )

  -- The message after a deployment is green exactly if the cluster accepted the manifest, whatever
  -- its answer says.
  pub is_green-deploy_answered :
      (lib : Services js) (s : Session Num) (r : Reply)
      → is_green (step js lib s (deploy_answered r)) ≡ is_accepted r
  unfolding is_green has_prefix step reply_text
  is_green-deploy_answered lib s (response true text) = refl
  is_green-deploy_answered lib s (response false text) = refl
  is_green-deploy_answered lib s (failure why) = refl
