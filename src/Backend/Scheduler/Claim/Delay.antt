-- ===== src/Backend/Scheduler/Claim/Delay.antt =====
-- How long a node waits before it asks for a pod.
use p2ser.Base.{◌≡◌, arith, ℕ, ◌+◌, ◌≤◌, ◌<◌, true, false, List}
use p2ser.Backend.Pod.{Pod}
use p2ser.Backend.Scheduler.{Engine, Node}
use p2ser.Backend.Scheduler.Claim.{check_local_anti_affinity, delay}

module _ (engine : Engine) where
  -- A node that runs no pod of the app waits from 10 to 399 milliseconds; one that runs such a pod
  -- waits at least 4.6 seconds longer than any that does not, and less than 5.4 seconds.
  pub delay_bounds :
      (node other : Node) (pods : List (Pod engine.Float)) (p : Pod engine.Float)
      (jitter jitter' : ℕ)
      → jitter < 100
      → jitter' < 100
      → check_local_anti_affinity engine node pods p.app ≡ true
      → check_local_anti_affinity engine other pods p.app ≡ false
      → (10 ≤ delay engine other pods p jitter')
        × (delay engine other pods p jitter' < 400)
        × (delay engine other pods p jitter' + 4600 < delay engine node pods p jitter)
        × (delay engine node pods p jitter < 5400)
  unfolding delay
  delay_bounds node other pods p jitter jitter' h h' here there =
      (ground arith, ground arith, ground arith, ground arith)
