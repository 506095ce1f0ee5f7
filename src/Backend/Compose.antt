-- ===== src/Backend/Compose.antt =====
-- backend/internal/compose/compose_parser.go: the pods of a compose file, which the YAML library has
-- decoded into `ComposeFile`.
pub mod Template
pub mod Replicas
pub mod Password
use p2ser.Base.{
  ℕ, zero, suc, Bool, true, false, not, ◌&&◌, ◌||◌, ltb, ◌==◌, List, [], ◌∷◌, ◌++◌, if◌then◌else◌,
  Option, none, some, map, length,
}
use p2ser.Dict.{Dict, get, put}
use p2ser.Json.{
  Json, null, str, arr, obj, Items, nil, cons, Fields, end, field, get_field, index_key,
}
use p2ser.Text.{Text, codes, cut_at, truthy_text}
use p2ser.Backend.Compose.Template.{interpolate}
use p2ser.Backend.Pod.{Pod, no_pod}
use p2ser.Backend.Store.Cursor.{has_prefix}

-- `Service`; a number of replicas that is not positive is 0.
pub record Service (Num : Type 0) : Type 0 where
  pub image : Text
  pub user : Text
  pub ports : List Text
  pub volumes : List Text
  pub environment : Option (Json Num)
  pub deploy : Option ℕ
  pub depends_on : Option (Json Num)
  pub x_k1n_standby : ℕ
  pub x_userns_remap : Bool

unfoldable pub capped : ℕ → ℕ
capped n = if ltb 100 n then 100 else n

unfoldable pub replicas_of : Option ℕ → ℕ
unfolding capped
replicas_of none = 1
replicas_of (some n) = capped (if ltb 0 n then n else 1)

module _ {Num : Type 0} where
  unfoldable pub listed_deps : Dict Text → Items Num → Dict Text
  listed_deps deps nil = deps
  listed_deps deps (cons (str s) vs) = listed_deps (put deps s (codes "service_started")) vs
  listed_deps deps (cons v vs) = listed_deps deps vs

  -- `cond, _ := depMap["condition"].(string)`
  unfoldable pub condition_of : Option (Json Num) → Text
  condition_of (some (str s)) = s
  condition_of _ = []

  unfoldable pub mapped_deps : Dict Text → Fields Num → Dict Text
  unfolding condition_of
  mapped_deps deps end = deps
  mapped_deps deps (field k (obj fs) rest) =
      mapped_deps (put deps k (condition_of (get_field fs (codes "condition")))) rest
  mapped_deps deps (field k v rest) = mapped_deps deps rest

  unfoldable pub deps_of : Option (Json Num) → Dict Text
  unfolding listed_deps mapped_deps
  deps_of (some (arr vs)) = listed_deps [] vs
  deps_of (some (obj fs)) = mapped_deps [] fs
  deps_of _ = []

  unfoldable pub listed_env : Dict Text → Items Num → List Text
  listed_env env nil = []
  listed_env env (cons (str s) vs) = interpolate env s ∷ listed_env env vs
  listed_env env (cons v vs) = listed_env env vs

  unfoldable pub mapped_env : Dict Text → Fields Num → List Text
  mapped_env env end = []
  mapped_env env (field k (str s) rest) = (k ++ b'=' ∷ interpolate env s) ∷ mapped_env env rest
  mapped_env env (field k v rest) = mapped_env env rest

  unfoldable pub env_of : Dict Text → Option (Json Num) → List Text
  unfolding listed_env mapped_env
  env_of env (some (arr vs)) = listed_env env vs
  env_of env (some (obj fs)) = mapped_env env fs
  env_of env _ = []

abbrev pub password_key : Text
password_key = codes "POSTGRES_PASSWORD="

-- The first entry for the password; an empty one is filled, and a missing one is added.
unfoldable pub with_password : Text → List Text → List Text
with_password password [] = (password_key ++ password) ∷ []
with_password password (e ∷ es) =
    let rest = with_password password es in
    if has_prefix password_key e
    then (if length e == 18 then password_key ++ password else e) ∷ es
    else e ∷ rest

-- `strings.Contains(s, part)`
unfoldable pub contains : Text → Text → Bool
contains part [] = has_prefix part []
contains part (c ∷ s) = has_prefix part (c ∷ s) || contains part s

unfoldable pub secured_env : Text → Text → List Text → List Text
unfolding with_password contains
secured_env image password env =
    if contains (codes "postgres") image then with_password password env else env

-- What `ParseComposeFile` is called with, and what it asks of the machine: `filepath.Join`, and the
-- password that it generates for a service.
pub record Request : Type 0 where
  pub project_name : Text
  pub env_map : Dict Text
  pub working_dir : Text
  pub join_path : Text → Text → Text
  pub password : Text → Text

unfoldable pub volume_of : Request → Text → Text
volume_of r v =
    let path = interpolate r.env_map v in
    if (has_prefix (codes "./") path || has_prefix (codes "../") path) && truthy_text r.working_dir
    then r.join_path r.working_dir path
    else path

unfoldable pub image_of : Request → Text → Text → Text
image_of r name image =
    let out = interpolate r.env_map image in
    if truthy_text out then out else r.project_name ++ b'-' ∷ name

-- `for i := 0; i < n; i++`, from `i` on
unfoldable pub pods_from : {Float : Type 0} → (ℕ → Pod Float) → ℕ → ℕ → List (Pod Float)
pods_from pod i zero = []
pods_from pod i (suc n) = pod i ∷ pods_from pod (suc i) n

module _ {Float Num : Type 0} (zero_float : Float) (r : Request) where
  unfoldable pub new_pod : Text → Service Num → Text → Text → Text → Pod Float
  unfolding image_of volume_of deps_of env_of secured_env
  new_pod name svc id role user = record (no_pod zero_float) {
    id = id;
    base_id = id;
    image = image_of r name svc.image;
    run_as_user = user;
    ports = svc.ports;
    volumes = map (volume_of r) svc.volumes;
    userns_remap = svc.x_userns_remap;
    status = codes "Pending";
    project = r.project_name;
    app = name;
    role = role;
    depends_on = deps_of svc.depends_on;
    env = secured_env svc.image (r.password name) (env_of r.env_map svc.environment);
  }

  unfoldable pub active_pod : Text → Service Num → ℕ → Pod Float
  unfolding new_pod
  active_pod name svc i =
      new_pod name svc (name ++ codes "-active-" ++ index_key i) (codes "Active")
        (if truthy_text svc.user then svc.user else codes "1000:1000")

  unfoldable pub standby_pod : Text → Service Num → ℕ → Pod Float
  unfolding new_pod
  standby_pod name svc i =
      new_pod name svc (name ++ codes "-standby-" ++ index_key i) (codes "Standby") svc.user

  unfoldable pub service_pods : Text → Service Num → List (Pod Float)
  unfolding pods_from active_pod standby_pod replicas_of
  service_pods name svc =
      pods_from (active_pod name svc) 0 (replicas_of svc.deploy)
      ++ pods_from (standby_pod name svc) 0 svc.x_k1n_standby

  -- `ParseComposeFile`, in the order in which `range` goes through the services
  unfoldable pub parse_compose_file : List (Text × Service Num) → List (Pod Float)
  unfolding service_pods
  parse_compose_file [] = []
  parse_compose_file ((name, svc) ∷ rest) = service_pods name svc ++ parse_compose_file rest
