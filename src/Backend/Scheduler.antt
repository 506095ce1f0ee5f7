-- ===== src/Backend/Scheduler.antt =====
-- backend/internal/scheduler/scheduler.go: the loops by which each node takes pods, keeps its leases
-- and promotes its standby pods. A round reads the list of the pods once and sends commands.
pub mod Claim
pub mod Standby
pub mod Split
pub mod Rolling
pub mod Status
use p2ser.Base.{
  ℕ, ◌+◌, ◌%◌, Bool, true, false, not, ◌&&◌, ◌||◌, List, [], ◌∷◌, ◌++◌, ltb, if◌then◌else◌, Option,
  none, some,
}
use p2ser.Dict.{Dict}
use p2ser.Text.{Text, codes, equal, truthy_text}
use p2ser.Backend.Pod.{Pod, HealthCheck, no_pod}
use p2ser.Backend.Store.{Op, cas_op, del_op, Command}

-- `float64`, with `float64(n)`, `x * 0.90`, `x / y`, `x > y` and the constant `0.8`; and what
-- `json.Marshal` writes for a pod.
pub record Engine : Type 1 where
  pub Float : Type 0
  pub zero_float : Float
  pub of_int : ℕ → Float
  pub times_090 : Float → Float
  pub divide : Float → Float → Float
  pub greater : Float → Float → Bool
  pub float_08 : Float
  pub marshal : Pod Float → Text

-- A node, with its two callbacks, which may be `nil`.
pub record Node : Type 0 where
  pub node_id : Text
  pub arch : Text
  pub free_ram : ℕ
  pub is_node_alive : Option (Text → Bool)
  pub container_checker : Option (Text → Bool)

abbrev pub word_size : ℕ
word_size = 0x10000000000000000

abbrev pub pod_key : Text → Text
pod_key id = codes "pod:" ++ id

unfoldable pub no_probe : Option HealthCheck → Bool
no_probe none = true
no_probe (some probe) = false

unfoldable pub delete_pod : Text → Command
delete_pod id = record { op = del_op; key = pod_key id; value = []; expected_version = 0 }

unfoldable pub says_alive : Option (Text → Bool) → Text → Bool
says_alive none id = false
says_alive (some alive) id = alive id

module _ {Float : Type 0} where
  abbrev pub is_up : Pod Float → Bool
  is_up p = equal p.status (codes "Scheduled") || equal p.status (codes "Running")

  unfoldable pub is_expired : ℕ → Pod Float → Bool
  is_expired now p = ltb 0 p.lease_expires_at && ltb p.lease_expires_at now

  -- Rolling update: the first pod with the given id
  unfoldable pub find_pod : Text → List (Pod Float) → Option (Pod Float)
  find_pod id [] = none
  find_pod id (p ∷ ps) = if equal p.id id then some p else find_pod id ps

  unfoldable pub is_replaced : Option (Pod Float) → Bool
  unfolding no_probe
  is_replaced none = false
  is_replaced (some p) = equal p.status (codes "Running") && (no_probe p.readiness_probe || p.ready)

  unfoldable pub deletes_for : List (Pod Float) → List (Pod Float) → List Command
  unfolding is_replaced find_pod delete_pod
  deletes_for pods [] = []
  deletes_for pods (old ∷ olds) =
      let rest = deletes_for pods olds in
      if truthy_text old.update_to_pod_id && is_replaced (find_pod old.update_to_pod_id pods)
      then delete_pod old.id ∷ rest
      else rest

  -- `reconcileStandby`
  unfoldable pub confirmed_dead : Node → ℕ → Pod Float → Bool
  unfolding is_expired says_alive
  confirmed_dead node now p =
      is_expired now p
      && not (says_alive node.is_node_alive p.node_id && not (equal p.status (codes "Fenced")))

  unfoldable pub has_dead_active : Node → ℕ → Text → List (Pod Float) → Bool
  unfolding confirmed_dead
  has_dead_active node now app [] = false
  has_dead_active node now app (p ∷ ps) =
      equal p.app app && equal p.role (codes "Active") && confirmed_dead node now p
      || has_dead_active node now app ps

  unfoldable pub is_local_standby : Node → Pod Float → Bool
  is_local_standby node p =
      equal p.node_id node.node_id && equal p.role (codes "Standby") && is_up p

  -- The standby pod that is promoted: the first of the node whose active pod is dead.
  unfoldable pub to_promote : Node → ℕ → List (Pod Float) → List (Pod Float) → Option (Pod Float)
  unfolding has_dead_active is_local_standby
  to_promote node now pods [] = none
  to_promote node now pods (p ∷ ps) =
      if is_local_standby node p && has_dead_active node now p.app pods
      then some p
      else to_promote node now pods ps

  unfoldable pub promoted : Pod Float → Pod Float
  promoted p = record p { role = codes "Active"; status = codes "Running" }

module _ (engine : Engine) where
  open engine use {Float}

  -- The pod that `tryLockPod` writes; `expires` is its time plus 15 seconds.
  unfoldable pub locked : Node → ℕ → Pod Float → Pod Float
  locked node expires pod = record pod {
    status =
        if equal pod.status (codes "Pending") || not (truthy_text pod.status)
        then codes "Scheduled"
        else pod.status;
    node_id = node.node_id;
    resource_version = (pod.resource_version + 1) % word_size;
    lease_expires_at = expires;
  }

  unfoldable pub try_lock_pod : Node → ℕ → Pod Float → Command
  unfolding locked
  try_lock_pod node expires pod = record {
    op = cas_op;
    key = pod_key pod.id;
    value = engine.marshal (locked node expires pod);
    expected_version = pod.resource_version;
  }

  -- `UpdatePod`
  unfoldable pub update_pod : Pod Float → Command
  update_pod pod = record {
    op = cas_op;
    key = pod_key pod.id;
    value =
        engine.marshal (record pod { resource_version = (pod.resource_version + 1) % word_size });
    expected_version = pod.resource_version;
  }

  -- `createNewStandbyPod`, with the digits of its time
  unfoldable pub new_standby : Text → Pod Float → Pod Float
  new_standby stamp p = record (no_pod engine.zero_float) {
    id = codes "pod-" ++ p.app ++ codes "-standby-" ++ stamp;
    status = codes "Pending";
    role = codes "Standby";
    app = p.app;
    cpu_req = p.cpu_req;
    ram_req = p.ram_req;
    arch = p.arch;
  }

  unfoldable pub create_new_standby_pod : Text → Pod Float → Command
  unfolding new_standby
  create_new_standby_pod stamp p = record {
    op = cas_op;
    key = pod_key (new_standby stamp p).id;
    value = engine.marshal (new_standby stamp p);
    expected_version = 0;
  }

  unfoldable pub promote : Node → ℕ → Text → Option (Pod Float) → List Command
  unfolding try_lock_pod promoted create_new_standby_pod
  promote node expires stamp none = []
  promote node expires stamp (some p) =
      try_lock_pod node expires (promoted p) ∷ create_new_standby_pod stamp p ∷ []

  unfoldable pub reconcile_standby : Node → ℕ → ℕ → Text → List (Pod Float) → List Command
  unfolding promote to_promote
  reconcile_standby node now expires stamp pods =
      promote node expires stamp (to_promote node now pods pods)
