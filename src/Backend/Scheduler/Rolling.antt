-- ===== src/Backend/Scheduler/Rolling.antt =====
-- When the scheduler deletes the old pod of a rolling update.
use p2ser.Base.{
  First, First-passed, not_both, ◌≡◌, ◌⊎◌, refl, arith, inl, inr, Bool-cases, true, List, [], ◌∷◌,
  Option, none, some, All, All-mono, Any,
}
use p2ser.Text.{Text, codes, equal, truthy_text}
use p2ser.Text.Equality.{equal_iff}
use p2ser.Backend.Pod.{Pod}
use p2ser.Backend.Scheduler.{no_probe, delete_pod, find_pod, is_replaced, deletes_for}
use p2ser.Backend.Store.{Command}

module _ {Float : Type 0} where
  -- The pod to which an old one points is the first with that id, it runs, and it is ready where it
  -- has a probe for that.
  pub record IsReplacedIn (pods : List (Pod Float)) (old : Pod Float) : Type 0 where
    pub pointing : truthy_text old.update_to_pod_id ≡ true
    pub newer : Pod Float
    pub found : First (λ q. equal q.id old.update_to_pod_id ≡ true) pods (some newer)
    pub running : newer.status ≡ codes "Running"
    pub probed : (no_probe newer.readiness_probe ≡ true) ⊎ (newer.ready ≡ true)

  find_pod-First :
      (id : Text) (ps : List (Pod Float)) → First (λ q. equal q.id id ≡ true) ps (find_pod id ps)
  unfolding find_pod
  find_pod-First id [] = tt
  find_pod-First id (p ∷ ps) = elim (Bool-cases (equal p.id id)) [
    | inl h ↦ rw h ([], ps, refl, tt, h)
    | inr h ↦ rw h (
        First-passed (λ q. equal q.id id ≡ true) p ps (find_pod id ps) (λ t. not_both _ t h)
          (find_pod-First id ps))
  ]

  replaced :
      (pods : List (Pod Float)) (old : Pod Float) (o : Option (Pod Float))
      → First (λ q. equal q.id old.update_to_pod_id ≡ true) pods o
      → truthy_text old.update_to_pod_id ≡ true
      → is_replaced o ≡ true
      → IsReplacedIn pods old
  unfolding is_replaced
  replaced pods old none f t h = absurd (ground arith)
  replaced pods old (some q) f t h =
      let both : (q.status ≡ codes "Running")
          × ((no_probe q.readiness_probe ≡ true) ⊎ (q.ready ≡ true)) =
        ground (arith, equal_iff q.status (codes "Running")) in
      record { pointing = t; newer = q; found = f; running = both.0; probed = both.1 }

  deletes_for-All :
      (pods olds : List (Pod Float))
      → All
          (λ c. Any (λ old. (c ≡ delete_pod old.id) × IsReplacedIn pods old) olds)
          (deletes_for pods olds)
  unfolding deletes_for
  deletes_for-All pods [] = tt
  deletes_for-All pods (old ∷ olds) =
      let deleted = λ (c : Command) (o : Pod Float). (c ≡ delete_pod o.id) × IsReplacedIn pods o in
      let rest =
        All-mono (λ c. Any (deleted c) olds) (λ c. Any (deleted c) (old ∷ olds))
          (deletes_for pods olds) (λ c h. inr h) (deletes_for-All pods olds) in
      elim (Bool-cases (truthy_text old.update_to_pod_id)) [
        | inl t ↦ elim (Bool-cases (is_replaced (find_pod old.update_to_pod_id pods))) [
          | inl h ↦
              rw (t, h)
                (
                  inl (refl, replaced pods old _ (find_pod-First old.update_to_pod_id pods) t h),
                  rest,
                )
          | inr h ↦ rw (t, h) rest
        ]
        | inr t ↦ rw t rest
      ]

  -- In each round, every command that `reconcile` sends for the rolling updates deletes a pod of
  -- the list that points to its successor, and the successor is in the list too, runs, and is ready
  -- where it has a probe for that.
  pub deletes_for-IsReplacedIn :
      (pods : List (Pod Float))
      → All
          (λ c. Any (λ old. (c ≡ delete_pod old.id) × IsReplacedIn pods old) pods)
          (deletes_for pods pods)
  deletes_for-IsReplacedIn pods = deletes_for-All pods pods
