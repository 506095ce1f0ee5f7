-- ===== src/Backend/Agent/Fenced.antt =====
-- A pod that was fenced off is left alone.
use p2ser.Base.{◌≡◌, refl, inl, inr, Bool-cases, ℕ, false, List, [], ◌∷◌}
use p2ser.Text.{codes, equal}
use p2ser.Backend.Pod.{Pod}
use p2ser.Backend.Scheduler.{Engine, Node}
use p2ser.Backend.Scheduler.Claim.{is_eligible, renew_leases}
use p2ser.Backend.Agent.{Machine, reconcile_pod}

module _ (engine : Engine) (machine : Machine engine.Float) where
  open engine use {Float}

  -- A fenced pod is not restarted by the agent, its lease is not renewed, and no node takes it.
  pub reconcile_pod_fenced :
      (node : Node) (now expires : ℕ) (pods : List (Pod Float)) (p : Pod Float)
      → p.status ≡ codes "Fenced"
      → (reconcile_pod engine machine p ≡ [])
        × (renew_leases engine node expires (p ∷ pods) ≡ renew_leases engine node expires pods)
        × (is_eligible engine node now pods p ≡ false)
  unfolding reconcile_pod renew_leases is_eligible equal
  reconcile_pod_fenced node now expires pods p h = (
    rw h refl,
    elim (Bool-cases (equal p.node_id node.node_id)) [
      | inl e ↦ rw (h, e) refl
      | inr e ↦ rw (h, e) refl
    ],
    rw h refl,
  )
