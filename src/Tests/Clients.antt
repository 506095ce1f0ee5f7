-- ===== src/Tests/Clients.antt =====
-- Clients, pods and names, and the theorems of Backend/Api and Backend/Dns at them.
use p2ser.Base.{
  ◌≡◌, ◌↔◌, ◌+◌, ◌<◌, refl, ℕ, true, false, [], ◌∷◌, All, some, none, map, if◌then◌else◌,
}
use p2ser.Text.{Text, codes, equal, truthy_text, within, ends_with, drop_last, split_parts}
use p2ser.Backend.Pod.{Pod}
use p2ser.Backend.Store.{applied, apply, encrypt, store_value, store_sealed}
use p2ser.Backend.Store.View.{view}
use p2ser.Backend.Store.Cursor.{has_prefix}
use p2ser.Backend.Compose.{Service, Request, contains, service_pods}
use p2ser.Backend.Api.Bots.{bot_protection, bot_command, banned, host_or}
use p2ser.Backend.Api.Bots.Shut.{IsShut, Names, bot_protection_iff, posted_bot-banned}
use p2ser.Backend.Api.Pods.{FileRead, content, handle_get_logs, pod_units, valid_pod_id, body}
use p2ser.Backend.Api.Pods.Named.{IsRefused, service_pods-IsRefused}
use p2ser.Backend.Dns.{handle_request, type_a, answered, query_name}
use p2ser.Backend.Dns.Serving.{ReplyFits, handle_request-ReplyFits}
use p2ser.Tests.Store.{tiny_bolt, tiny_gcm, tiny_json}
use p2ser.Tests.Backend.{web, one_pod}

-- Capitals of ASCII
tiny_lower : Text → Text
tiny_lower = map (λ c. if within b'A' b'Z' c then c + 32 else c)

bot_protection_iff_example :
    (bot_protection tiny_lower tiny_bolt tiny_gcm one_pod
        (codes "Mozilla ClaudeBot")
        none
        (codes "1.2.3.4")
      ≡ banned (host_or none (codes "1.2.3.4")))
    ↔ IsShut tiny_lower tiny_bolt tiny_gcm
        (view tiny_bolt tiny_gcm one_pod)
        (codes "Mozilla ClaudeBot")
bot_protection_iff_example =
    bot_protection_iff tiny_lower tiny_bolt tiny_gcm one_pod (codes "Mozilla ClaudeBot") none
      (codes "1.2.3.4")

posted :
    (apply tiny_bolt tiny_gcm tiny_json one_pod
      (some (7 ∷ []))
      (some (bot_command tiny_lower (codes "POST") (codes "CurlBot")))).1
    ≡ applied
unfolding apply store_value store_sealed encrypt bot_command tiny_lower equal
posted = refl

curl_named : Names (tiny_lower (codes "curlbot/1.0")) (tiny_lower (codes "CurlBot"))
unfolding tiny_lower contains has_prefix
curl_named = (refl, refl)

posted_bot-banned_example :
    bot_protection tiny_lower tiny_bolt tiny_gcm
      (apply tiny_bolt tiny_gcm tiny_json one_pod
        (some (7 ∷ []))
        (some (bot_command tiny_lower (codes "POST") (codes "CurlBot")))).0
      (codes "curlbot/1.0")
      (some (codes "1.2.3.4"))
      (codes "1.2.3.4:55")
    ≡ banned (host_or (some (codes "1.2.3.4")) (codes "1.2.3.4:55"))
posted_bot-banned_example =
    posted_bot-banned tiny_lower tiny_bolt tiny_gcm tiny_json one_pod (7 ∷ []) (codes "CurlBot")
      (codes "curlbot/1.0") (some (codes "1.2.3.4")) (codes "1.2.3.4:55") refl posted curl_named

valid_name : valid_pod_id (codes "my-db-active-0") ≡ true
unfolding valid_pod_id
valid_name = refl

abbrev no_logs : Text → FileRead
no_logs path = content (codes "started")

logs_shown : handle_get_logs (codes "GET") (codes "my-db-active-0") no_logs ≡ body (codes "started")
unfolding handle_get_logs equal
logs_shown = refl

abbrev my_db : Service ℕ
my_db = record {
  image = codes "postgres";
  user = [];
  ports = [];
  volumes = [];
  environment = none;
  deploy = none;
  depends_on = none;
  x_k1n_standby = 1;
  x_userns_remap = false;
}

abbrev upload : Request
upload = record {
  project_name = codes "shop";
  env_map = [];
  working_dir = [];
  join_path = λ a b. b;
  password = λ name. codes "secret";
}

bad_name : pod_units (codes "my_db") ≡ false
unfolding pod_units
bad_name = refl

service_pods-IsRefused_example :
    All
      (λ p.
        IsRefused tiny_bolt tiny_gcm
          (λ text. codes "n1")
          one_pod
          (codes "n1")
          none
          []
          []
          no_logs
          p.id)
      (service_pods {Float = ℕ} 0 upload (codes "my_db") my_db)
service_pods-IsRefused_example =
    service_pods-IsRefused tiny_bolt tiny_gcm (λ text. codes "n1") one_pod (codes "n1") none [] []
      no_logs 0 upload (codes "my_db") my_db bad_name

abbrev running : Pod ℕ
running = record web { status = codes "Running"; ready = true; pod_ip = codes "10.88.0.7/16" }

-- A standby pod gets requests like an active one.
abbrev standing_by : Pod ℕ
standing_by = record running { role = codes "Standby"; pod_ip = codes "10.88.0.9/16" }

first_of : (n : ℕ) → 0 < n → 0 < n
first_of n h = h

named_address :
    handle_request {Float = ℕ}
      (λ n. 0)
      truthy_text
      (some (standing_by ∷ web ∷ []))
      true
      type_a
      (codes "web.")
    ≡ answered (codes "10.88.0.9")
unfolding handle_request equal ends_with drop_last split_parts
named_address = refl

handle_request-ReplyFits_example :
    ReplyFits (query_name (codes "web")) (running ∷ standing_by ∷ []) (
      handle_request
        (λ n. 0)
        truthy_text
        (some (running ∷ standing_by ∷ []))
        true
        type_a
        (codes "web"))
handle_request-ReplyFits_example =
    handle_request-ReplyFits (λ n. 0) truthy_text first_of (codes "web")
      (running ∷ standing_by ∷ [])
      (λ s. unfold split_parts in (refl, refl), (λ s. unfold split_parts in (refl, refl), tt))
