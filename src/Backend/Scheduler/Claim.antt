-- ===== src/Backend/Scheduler/Claim.antt =====
-- The rest of backend/internal/scheduler/scheduler.go: the pod that `reconcile` tries to take, how
-- long it waits before, and `renewLeases`.
pub mod Eligible
pub mod Delay
pub mod Race
pub mod Progress
use p2ser.Base.{
  ℕ, ◌+◌, Bool, true, false, not, ◌&&◌, ◌||◌, List, [], ◌∷◌, ◌++◌, if◌then◌else◌, Option, none,
  some,
}
use p2ser.Dict.{Dict}
use p2ser.Text.{Text, codes, equal, truthy_text}
use p2ser.Backend.Pod.{Pod}
use p2ser.Backend.Store.{Command}
use p2ser.Backend.Scheduler.{
  Engine, Node, is_up, is_expired, try_lock_pod, deletes_for, reconcile_standby,
}

module _ (engine : Engine) where
  open engine use {Float}

  -- A dependency on an app, under a condition, is met by a pod.
  unfoldable pub meets : Text → Text → Pod Float → Bool
  meets app condition p =
      equal p.app app
      && equal p.role (codes "Active")
      && (if equal condition (codes "service_healthy")
          then equal p.status (codes "Running") && p.ready
          else equal p.status (codes "Running") || equal p.status (codes "Scheduled"))

  unfoldable pub is_met : Text → Text → List (Pod Float) → Bool
  unfolding meets
  is_met app condition [] = false
  is_met app condition (p ∷ ps) = meets app condition p || is_met app condition ps

  -- `checkDependencies`, in the order in which `range` goes through the map
  unfoldable pub check_dependencies : List (Pod Float) → Dict Text → Bool
  unfolding is_met
  check_dependencies pods [] = true
  check_dependencies pods ((app, condition) ∷ deps) =
      is_met app condition pods && check_dependencies pods deps

  unfoldable pub has_local : Node → Text → List (Pod Float) → Bool
  has_local node app [] = false
  has_local node app (p ∷ ps) =
      equal p.node_id node.node_id && equal p.app app && is_up p || has_local node app ps

  -- `checkLocalAntiAffinity`
  unfoldable pub check_local_anti_affinity : Node → List (Pod Float) → Text → Bool
  unfolding has_local
  check_local_anti_affinity node pods app = truthy_text app && has_local node app pods

  abbrev pub safe_ram : Node → Float
  safe_ram node = engine.times_090 (engine.of_int node.free_ram)

  -- A pod that the loop does not pass over.
  unfoldable pub is_eligible : Node → ℕ → List (Pod Float) → Pod Float → Bool
  unfolding is_expired check_dependencies
  is_eligible node now pods p =
      (equal p.status (codes "Pending") || is_up p && is_expired now p)
      && check_dependencies pods p.depends_on
      && (not (truthy_text p.arch) || equal p.arch node.arch)
      && not (engine.greater (engine.of_int p.ram_req) (safe_ram node))

  unfoldable pub first_eligible :
      Node → ℕ → List (Pod Float) → List (Pod Float) → Option (Pod Float)
  unfolding is_eligible
  first_eligible node now pods [] = none
  first_eligible node now pods (p ∷ ps) =
      if is_eligible node now pods p then some p else first_eligible node now pods ps

  -- The milliseconds that the node sleeps before it asks; `jitter` is `rand.Intn(100)`.
  unfoldable pub delay : Node → List (Pod Float) → Pod Float → ℕ → ℕ
  unfolding check_local_anti_affinity
  delay node pods p jitter =
      (if engine.greater (engine.divide (engine.of_int p.ram_req) (safe_ram node)) engine.float_08
        then 10
        else 300)
      + jitter
      + (if check_local_anti_affinity node pods p.app then 5000 else 0)

  unfoldable pub claim : Node → ℕ → Option (Pod Float) → List Command
  unfolding try_lock_pod
  claim node expires none = []
  claim node expires (some p) = try_lock_pod engine node expires p ∷ []

  -- A round of `reconcile` at `now`: what it sends, in order. The lease of a promoted pod and that
  -- of a taken pod begin when they are asked for.
  unfoldable pub reconcile : Node → ℕ → ℕ → ℕ → Text → List (Pod Float) → List Command
  unfolding deletes_for reconcile_standby claim first_eligible
  reconcile node now promotion_expires claim_expires stamp pods =
      deletes_for pods pods
      ++ reconcile_standby engine node now promotion_expires stamp pods
      ++ claim node claim_expires (first_eligible node now pods pods)

  unfoldable pub is_running : Option (Text → Bool) → Text → Bool
  is_running none id = true
  is_running (some check) id = check id

  -- `renewLeases`
  unfoldable pub renew_leases : Node → ℕ → List (Pod Float) → List Command
  unfolding is_running try_lock_pod
  renew_leases node expires [] = []
  renew_leases node expires (p ∷ ps) =
      let rest = renew_leases node expires ps in
      if equal p.node_id node.node_id && is_up p && is_running node.container_checker p.id
      then try_lock_pod engine node expires p ∷ rest
      else rest
