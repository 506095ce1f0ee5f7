-- ===== src/Backend/Scheduler/Status.antt =====
-- The status of a pod that is up.
use p2ser.Base.{◌≡◌, ◌≢◌, arith, true, false, ◌||◌}
use p2ser.Text.Equality.{equal_iff}
use p2ser.Text.{Text, codes, equal}

up_not :
    (s other : Text)
    → other ≢ codes "Scheduled"
    → other ≢ codes "Running"
    → (equal s (codes "Scheduled") || equal s (codes "Running")) ≡ true
    → equal s other ≡ false
up_not s other n n' up =
    ground
      (arith, equal_iff s (codes "Scheduled"), equal_iff s (codes "Running"), equal_iff s other)

pub up_not_pending :
    (s : Text)
    → (equal s (codes "Scheduled") || equal s (codes "Running")) ≡ true
    → equal s (codes "Pending") ≡ false
up_not_pending s up = up_not s (codes "Pending") (λ e. ground arith) (λ e. ground arith) up

pub up_not_fenced :
    (s : Text)
    → (equal s (codes "Scheduled") || equal s (codes "Running")) ≡ true
    → equal s (codes "Fenced") ≡ false
up_not_fenced s up = up_not s (codes "Fenced") (λ e. ground arith) (λ e. ground arith) up
