-- ===== src/Backend/Compose/Replicas.antt =====
-- How many pods a service gets.
use p2ser.Base.{◌≡◌, refl, arith, ℕ, zero, suc, ◌≤◌, List, ◌++◌, Option, none, some, length, All}
use p2ser.Text.{Text, codes}
use p2ser.Backend.Pod.{Pod}
use p2ser.Backend.Compose.{
  Service, Request, capped, replicas_of, pods_from, active_pod, standby_pod, service_pods,
}

length-pods_from : {Float : Type 0} (pod : ℕ → Pod Float) (i n : ℕ) → length (pods_from pod i n) ≡ n
unfolding pods_from
length-pods_from pod i zero = refl
length-pods_from pod i (suc n) = omega (arith, length-pods_from pod (suc i) n)

-- What holds of the pod of every index holds of all.
pub All-pods_from {κ} :
    {Float : Type 0} (P : Pod Float → Type κ) (pod : ℕ → Pod Float) (i n : ℕ)
    → ((j : ℕ) → P (pod j))
    → All P (pods_from pod i n)
unfolding pods_from
All-pods_from P pod i zero h = tt
All-pods_from P pod i (suc n) h = (h i, All-pods_from P pod (suc i) n h)

replicas_of_bounds : (deploy : Option ℕ) → (1 ≤ replicas_of deploy) × (replicas_of deploy ≤ 100)
unfolding replicas_of capped
replicas_of_bounds none = (omega arith, omega arith)
replicas_of_bounds (some n) = ground arith

module _ {Float Num : Type 0} (zero_float : Float) (r : Request) where
  -- A service gets from 1 to 100 active pods, whatever number of replicas it asks for, and behind
  -- them as many standby pods as it asks for, however many these are.
  pub service_pods_bounds :
      (name : Text) (svc : Service Num)
      → (actives standbys : List (Pod Float)) × (service_pods zero_float r name svc
          ≡ actives ++ standbys)
        × All (λ p. p.role ≡ codes "Active") actives
        × (1 ≤ length actives)
        × (length actives ≤ 100)
        × All (λ p. p.role ≡ codes "Standby") standbys
        × (length standbys ≡ svc.x_k1n_standby)
  unfolding service_pods active_pod standby_pod
  service_pods_bounds name svc =
      let n = replicas_of svc.deploy in
      let bounds = replicas_of_bounds svc.deploy in
      let active = active_pod zero_float r name svc in
      let standby = standby_pod zero_float r name svc in
      (
        pods_from active 0 n,
        pods_from standby 0 svc.x_k1n_standby,
        refl,
        All-pods_from (λ p. p.role ≡ codes "Active") active 0 n (λ j. refl),
        omega (arith, length-pods_from active 0 n, bounds),
        omega (arith, length-pods_from active 0 n, bounds),
        All-pods_from (λ p. p.role ≡ codes "Standby") standby 0 svc.x_k1n_standby (λ j. refl),
        length-pods_from standby 0 svc.x_k1n_standby,
      )
