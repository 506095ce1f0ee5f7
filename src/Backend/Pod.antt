-- ===== src/Backend/Pod.antt =====
-- `Pod` of backend/internal/scheduler/scheduler.go, the record that all parts of the server keep in
-- the store. A number that is not used for arithmetic is a natural number; a lease that is not
-- positive is 0.
use p2ser.Base.{ℕ, Bool, false, List, [], Option, none}
use p2ser.Dict.{Dict}
use p2ser.Text.{Text}

pub record HealthCheck : Type 0 where
  pub kind : Text
  pub port : ℕ
  pub path : Text

pub record Pod (Float : Type 0) : Type 0 where
  pub id : Text
  pub base_id : Text
  pub image : Text
  pub status : Text
  pub node_id : Text
  pub resource_version : ℕ
  pub lease_expires_at : ℕ
  pub project : Text
  pub cpu_req : Float
  pub ram_req : ℕ
  pub arch : Text
  pub ports : List Text
  pub volumes : List Text
  pub app : Text
  pub role : Text
  pub pod_ip : Text
  pub ready : Bool
  pub liveness_probe : Option HealthCheck
  pub readiness_probe : Option HealthCheck
  pub is_stateful : Bool
  pub run_as_user : Text
  pub userns_remap : Bool
  pub depends_on : Dict Text
  pub env : List Text
  pub update_to_pod_id : Text

-- `Pod{}`
abbrev pub no_pod : {Float : Type 0} → Float → Pod Float
no_pod zero_float = record {
  id = [];
  base_id = [];
  image = [];
  status = [];
  node_id = [];
  resource_version = 0;
  lease_expires_at = 0;
  project = [];
  cpu_req = zero_float;
  ram_req = 0;
  arch = [];
  ports = [];
  volumes = [];
  app = [];
  role = [];
  pod_ip = [];
  ready = false;
  liveness_probe = none;
  readiness_probe = none;
  is_stateful = false;
  run_as_user = [];
  userns_remap = false;
  depends_on = [];
  env = [];
  update_to_pod_id = [];
}
