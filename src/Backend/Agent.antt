-- ===== src/Backend/Agent.antt =====
-- backend/internal/engine/agent.go: each node brings its containers in line with the pods that the
-- store has for it.
pub mod Fenced
pub mod Image
pub mod Quorum
use p2ser.Base.{
  ℕ, Bool, true, false, not, ◌&&◌, ◌||◌, ltb, ◌==◌, List, [], ◌∷◌, ◌++◌, if◌then◌else◌, Option,
  none, some,
}
use p2ser.Text.{Text, codes, equal, truthy_text}
use p2ser.Backend.Pod.{Pod, HealthCheck}
use p2ser.Backend.Store.{Command}
use p2ser.Backend.Scheduler.{Engine, is_up, update_pod}

-- What the agent asks of the machine: a TCP connection, the status of an HTTP request, whether a
-- container runs, and the address that a started container gets. `none` is an error.
pub record Machine (Float : Type 0) : Type 0 where
  pub dials : Text → ℕ → Bool
  pub http_status : Text → ℕ → Text → Option ℕ
  pub is_running : Text → Option Bool
  pub run_container : Pod Float → Option Text

-- What it does, in order.
pub data Action (Float : Type 0) : Type 0 where
  stopped : Text → Action Float
  started : Pod Float → Action Float
  sent : Command → Action Float

unfoldable pub is_good : Option ℕ → Bool
is_good none = false
is_good (some code) = ltb code 400

module _ (engine : Engine) (machine : Machine engine.Float) where
  open engine use {Float}

  unfoldable pub probed : HealthCheck → Text → Bool
  unfolding is_good
  probed probe ip =
      if equal probe.kind (codes "tcp")
      then machine.dials ip probe.port
      else if equal probe.kind (codes "http")
      then is_good (machine.http_status ip probe.port probe.path)
      else true

  -- `checkHealth`
  unfoldable pub check_health : Option HealthCheck → Text → Bool
  unfolding probed
  check_health none ip = true
  check_health (some probe) ip = if truthy_text ip then probed probe ip else true

  -- What follows a start: the address and the status go to the store if they changed.
  unfoldable pub after_start : Pod Float → Option Text → List (Action Float)
  after_start p none = []
  after_start p (some ip) =
      let up = record p {
        status = if equal p.status (codes "Scheduled") then codes "Running" else p.status;
        pod_ip = ip;
      } in
      if equal p.status (codes "Scheduled") || not (equal p.pod_ip ip)
      then sent (update_pod engine up) ∷ []
      else []

  unfoldable pub restart : Pod Float → List (Action Float)
  unfolding after_start
  restart p =
      stopped p.id
      ∷ (if truthy_text p.image then started p ∷ after_start p (machine.run_container p) else [])

  -- The probes of a container that runs; `p` has the status `Running` by now.
  unfoldable pub watch : Pod Float → List (Action Float)
  unfolding check_health
  watch p =
      let ready = check_health p.readiness_probe p.pod_ip in
      if check_health p.liveness_probe p.pod_ip
      then (if ready && not p.ready || not ready && p.ready
          then sent (update_pod engine (record p { ready = ready })) ∷ []
          else [])
      else stopped p.id ∷ []

  unfoldable pub tend : Pod Float → Option Bool → List (Action Float)
  unfolding restart watch
  tend p none = []
  tend p (some false) = restart p
  tend p (some true) =
      if equal p.status (codes "Scheduled")
      then (let up = record p { status = codes "Running" } in
          sent (update_pod engine up) ∷ watch up)
      else watch p

  -- The loop of `reconcile` on one pod of the node.
  unfoldable pub reconcile_pod : Pod Float → List (Action Float)
  unfolding tend
  reconcile_pod p =
      if equal p.status (codes "Fenced")
      then []
      else if is_up p
      then tend p (machine.is_running p.id)
      else []

  unfoldable pub reconcile_pods : Text → List (Pod Float) → List (Action Float)
  unfolding reconcile_pod
  reconcile_pods node_id [] = []
  reconcile_pods node_id (p ∷ ps) =
      let rest = reconcile_pods node_id ps in
      if equal p.node_id node_id then reconcile_pod p ++ rest else rest

  -- `FenceStatefulPods`
  unfoldable pub fence_stateful_pods : Text → List (Pod Float) → List (Action Float)
  fence_stateful_pods node_id [] = []
  fence_stateful_pods node_id (p ∷ ps) =
      let rest = fence_stateful_pods node_id ps in
      if equal p.node_id node_id && p.is_stateful
      then stopped p.id ∷ sent (update_pod engine (record p { status = codes "Fenced" })) ∷ rest
      else rest
