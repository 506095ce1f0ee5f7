-- ===== src/Backend/Agent/Quorum.antt =====
-- A node that has lost the quorum: `FenceStatefulPods`, the commands that it sends to the API of its
-- node, the store that they leave, and the round of the agent that follows.
use mathlib.Core.Path.{subst}
use p2ser.Base.{
  ◌≡◌, refl, sym, ap, inl, inr, Bool, Bool-cases, true, false, List, [], ◌∷◌, ◌++◌, ◌&&◌, some, Any,
  map,
}
use p2ser.Backend.Agent.{
  Machine, Action, stopped, started, sent, restart, tend, reconcile_pod, reconcile_pods,
  fence_stateful_pods,
}
use p2ser.Backend.Api.{Future, status, handle_apply, on_leader, logged}
use p2ser.Backend.Pod.{Pod}
use p2ser.Backend.Scheduler.Status.{up_not_fenced}
use p2ser.Backend.Scheduler.{Engine, is_up, update_pod}
use p2ser.Backend.Store.Library.{Bolt, Gcm, Encoding}
use p2ser.Backend.Store.Replicas.{run}
use p2ser.Backend.Store.{Fsm, Command}
use p2ser.Text.Equality.{equal_refl}
use p2ser.Text.{Text, codes, equal, truthy_text}

-- The action is among those of a round.
abbrev pub Does : {F : Type 0} → Action F → List (Action F) → Type 0
Does x actions = Any (λ y. y ≡ x) actions

Does-left : {F : Type 0} (x : Action F) (xs ys : List (Action F)) → Does x xs → Does x (xs ++ ys)
Does-left x [] ys h = absurd h
Does-left x (z ∷ xs) ys (inl e) = inl e
Does-left x (z ∷ xs) ys (inr h) = inr (Does-left x xs ys h)

Does-right : {F : Type 0} (x : Action F) (xs ys : List (Action F)) → Does x ys → Does x (xs ++ ys)
Does-right x [] ys h = h
Does-right x (z ∷ xs) ys h = inr (Does-right x xs ys h)

-- What the API of a node that is no leader has its log take of the commands of some actions.
abbrev pub logged_by : {F : Type 0} → Bool → List (Action F) → List Command
logged_by readable [] = []
logged_by readable (sent c ∷ actions) =
    logged (codes "POST") false readable c ++ logged_by readable actions
logged_by readable (stopped id ∷ actions) = logged_by readable actions
logged_by readable (started p ∷ actions) = logged_by readable actions

logged_by-nothing :
    {F : Type 0} (readable : Bool) (actions : List (Action F)) → logged_by readable actions ≡ []
unfolding logged equal
logged_by-nothing readable [] = refl
logged_by-nothing readable (sent c ∷ actions) = logged_by-nothing readable actions
logged_by-nothing readable (stopped id ∷ actions) = logged_by-nothing readable actions
logged_by-nothing readable (started p ∷ actions) = logged_by-nothing readable actions

module _ (engine : Engine) (machine : Machine engine.Float) (node_id : Text) where
  open engine use {Float}

  -- A stateful pod of the node
  abbrev pub IsGuarded : Pod Float → Type 0
  IsGuarded p = (p.node_id ≡ node_id) × (p.is_stateful ≡ true)

  fence_stateful_pods-Does :
      (ps : List (Pod Float)) (p : Pod Float)
      → Any (λ q. q ≡ p) ps
      → IsGuarded p
      → Does (stopped p.id) (fence_stateful_pods engine machine node_id ps)
        × Does
            (sent (update_pod engine (record p { status = codes "Fenced" })))
            (fence_stateful_pods engine machine node_id ps)
  unfolding fence_stateful_pods
  fence_stateful_pods-Does [] p h g = absurd h
  fence_stateful_pods-Does (q ∷ ps) p (inl e) (here, stateful) =
      subst
        (λ (x : Pod Float).
          Does (stopped p.id) (fence_stateful_pods engine machine node_id (x ∷ ps))
          × Does (sent (update_pod engine (record p { status = codes "Fenced" })))
              (fence_stateful_pods engine machine node_id (x ∷ ps)))
        (sym e) (rw (here, equal_refl node_id, stateful) (inl refl, inr (inl refl)))
  fence_stateful_pods-Does (q ∷ ps) p (inr h) g =
      let (stop, send) = fence_stateful_pods-Does ps p h g in
      elim (Bool-cases (equal q.node_id node_id && q.is_stateful)) [
        | inl e ↦ rw e (inr (inr stop), inr (inr send))
        | inr e ↦ rw e (stop, send)
      ]

  -- The pod is up and has an image, and its container is stopped.
  abbrev pub IsStopped : Pod Float → Type 0
  IsStopped p =
      (is_up p ≡ true) × (truthy_text p.image ≡ true) × (machine.is_running p.id ≡ some false)

  reconcile_pods-Does :
      (ps : List (Pod Float)) (p : Pod Float)
      → Any (λ q. q ≡ p) ps
      → p.node_id ≡ node_id
      → IsStopped p
      → Does (started p) (reconcile_pods engine machine node_id ps)
  unfolding reconcile_pods reconcile_pod tend restart
  reconcile_pods-Does [] p h here down = absurd h
  reconcile_pods-Does (q ∷ ps) p (inl e) here (up, image, down) =
      subst (λ (x : Pod Float). Does (started p) (reconcile_pods engine machine node_id (x ∷ ps)))
        (sym e)
        (rw (here, equal_refl node_id, up_not_fenced p.status up, up, down, image) (inr (inl refl)))
  reconcile_pods-Does (q ∷ ps) p (inr h) here down =
      let later = reconcile_pods-Does ps p h here down in
      elim (Bool-cases (equal q.node_id node_id)) [
        | inl e ↦ rw e (
            Does-right (started p) (reconcile_pod engine machine q)
              (reconcile_pods engine machine node_id ps) later)
        | inr e ↦ rw e later
      ]

  module _ (lib : Bolt) (gcm : Gcm) (json : Encoding) where
    -- The store when the API of the node has had the commands of the fencing
    abbrev pub fenced_store :
        Fsm lib.Bucket → (Command → Text) → Bool → List (Pod Float) → Fsm lib.Bucket
    fenced_store f nonces readable pods =
        (run lib gcm json f (
          map (λ c. (nonces c, some c))
            (logged_by readable (fence_stateful_pods engine machine node_id pods)))).0

    fenced_store-same :
        (f : Fsm lib.Bucket) (nonces : Command → Text) (readable : Bool) (pods : List (Pod Float))
        → fenced_store f nonces readable pods ≡ f
    unfolding run
    fenced_store-same f nonces readable pods =
        ap (λ cs. (run lib gcm json f (map (λ c. (nonces c, some c)) cs)).0)
          (logged_by-nothing readable (fence_stateful_pods engine machine node_id pods))

    -- A node without a leader stops a stateful pod of its own and sends the command that marks it
    -- as fenced, which its API answers with 503. Where the pod is up and has an image, the next
    -- round of the agent, which reads the pods from the store that all these commands leave, in
    -- whatever way, starts it again, if its container is found stopped.
    pub fenced_restarts :
        (read : Fsm lib.Bucket → List (Pod Float)) (f : Fsm lib.Bucket) (nonces : Command → Text)
        (readable : Bool) (future : Future) (p : Pod Float)
        → Any (λ q. q ≡ p) (read f)
        → IsGuarded p
        → IsStopped p
        → Does (stopped p.id) (fence_stateful_pods engine machine node_id (read f))
          × Does
              (sent (update_pod engine (record p { status = codes "Fenced" })))
              (fence_stateful_pods engine machine node_id (read f))
          × (handle_apply (codes "POST") false [] readable future ≡ status 503)
          × Does (started p) (
              reconcile_pods engine machine node_id
                (read (fenced_store f nonces readable (read f))))
    unfolding handle_apply on_leader
    fenced_restarts read f nonces readable future p listed guarded down =
        let (stop, send) = fence_stateful_pods-Does (read f) p listed guarded in
        (
          stop,
          send,
          rw (equal_refl (codes "POST")) refl,
          subst (λ g. Does (started p) (reconcile_pods engine machine node_id (read g)))
              (sym (fenced_store-same f nonces readable (read f)))
              (reconcile_pods-Does (read f) p listed guarded.0 down),
        )
