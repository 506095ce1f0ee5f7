-- ===== src/Backend/Agent/Image.antt =====
-- A pod without an image is never started.
use p2ser.Base.{◌≡◌, refl, ℕ, false, [], ◌∷◌, some}
use p2ser.Text.{Text, equal}
use p2ser.Backend.Pod.{Pod}
use p2ser.Backend.Scheduler.{Engine, Node, new_standby, locked}
use p2ser.Backend.Agent.{Machine, stopped, reconcile_pod, tend, restart}

module _ (engine : Engine) (machine : Machine engine.Float) where
  open engine use {Float}

  -- The standby pod that a promotion creates has no image, so the node that takes it never starts
  -- it: in each round it stops what is not running.
  pub reconcile_pod-new_standby :
      (node : Node) (expires : ℕ) (stamp : Text) (p : Pod Float)
      → machine.is_running (new_standby engine stamp p).id ≡ some false
      → reconcile_pod engine machine (locked engine node expires (new_standby engine stamp p))
        ≡ stopped (new_standby engine stamp p).id ∷ []
  unfolding reconcile_pod tend restart locked new_standby equal
  reconcile_pod-new_standby node expires stamp p h = rw h refl
