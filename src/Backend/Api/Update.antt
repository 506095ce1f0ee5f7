-- ===== src/Backend/Api/Update.antt =====
-- `HandleCompose` on a pod that is there: what becomes of its lease, and of the new definition.
use p2ser.Base.{
  ◌≡◌, refl, All, All-append, arith, ap, ◌∙◌, true, false, List, [], ◌∷◌, ◌<◌, ℕ, Option, some,
  length,
}
use p2ser.Text.{Text}
use p2ser.Text.Equality.{equal_refl}
use p2ser.Backend.Api.{carried_on, deploy_pod, set_pod}
use p2ser.Backend.Compose.Replicas.{All-pods_from}
use p2ser.Backend.Compose.{
  Service, Request, pods_from, service_pods, new_pod, active_pod, standby_pod, replicas_of,
}
use p2ser.Backend.Pod.{Pod}
use p2ser.Backend.Scheduler.Status.{up_not_pending}
use p2ser.Backend.Scheduler.{
  Engine, Node, is_up, pod_key, locked, try_lock_pod, is_expired, confirmed_dead,
}
use p2ser.Backend.Scheduler.Claim.{is_eligible}
use p2ser.Backend.Scheduler.Claim.Race.{ReadsVersions}
use p2ser.Backend.Store.Library.{Bolt, Gcm, Encoding}
use p2ser.Backend.Store.Locks.{granted, stored}
use p2ser.Backend.Store.Replicas.{run}
use p2ser.Backend.Store.{
  Command, applied, Fsm, get_state, apply, update, store_value, stored_version,
}

module _ (engine : Engine) where
  open engine use {Float}

  carried_on_kept :
      (node : Node) (now : ℕ) (pods : List (Pod Float)) (old new : Pod Float)
      → is_up old ≡ true
      → new.lease_expires_at ≡ 0
      → (confirmed_dead node now (carried_on engine old new) ≡ false)
        × (is_eligible engine node now pods (carried_on engine old new) ≡ false)
  unfolding confirmed_dead is_expired carried_on is_eligible
  carried_on_kept node now pods old new up e =
      rw (e, up_not_pending old.status up) (ground arith, ground arith)

  -- A pod that is said to run is deployed again with the same image: it is written with the lease of
  -- the parsed pod, which has none. Whatever becomes of its node, `reconcileStandby` does not find
  -- that pod dead and `reconcile` does not take it, at any time.
  pub service_pods_kept :
      (node : Node) (now : ℕ) (pods : List (Pod Float)) (old : Pod Float) {Num : Type 0}
      (r : Request) (name : Text) (svc : Service Num)
      → is_up old ≡ true
      → All
          (λ new.
            (confirmed_dead node now
                (carried_on engine old (record new { project = r.project_name }))
              ≡ false)
            × (is_eligible engine node now pods
                  (carried_on engine old (record new { project = r.project_name }))
                ≡ false))
          (service_pods engine.zero_float r name svc)
  unfolding service_pods active_pod standby_pod new_pod
  service_pods_kept node now pods old r name svc up =
      let P = λ (new : Pod Float).
        (confirmed_dead node now (carried_on engine old (record new { project = r.project_name }))
          ≡ false)
        × (is_eligible engine node now pods
              (carried_on engine old (record new { project = r.project_name }))
            ≡ false) in
      let active = active_pod engine.zero_float r name svc in
      let standby = standby_pod engine.zero_float r name svc in
      All-append P (pods_from active 0 (replicas_of svc.deploy))
        (pods_from standby 0 svc.x_k1n_standby)
        (All-pods_from P active 0 (replicas_of svc.deploy) (λ j.
          carried_on_kept node now pods old (record (active j) { project = r.project_name }) up
            refl))
        (All-pods_from P standby 0 svc.x_k1n_standby (λ j.
          carried_on_kept node now pods old (record (standby j) { project = r.project_name }) up
            refl))

  module _ (lib : Bolt) (gcm : Gcm) (json : Encoding) where
    set_applied :
        (f : Fsm lib.Bucket) (nonce k : Text) (p : Pod Float)
        → pod_key p.id ≡ k
        → apply lib gcm json f (some nonce) (some (set_pod engine p))
          ≡ store_value lib gcm f (some nonce) k (engine.marshal p)
    unfolding apply update set_pod
    set_applied f nonce k p e =
        ap (λ (j : Text). store_value lib gcm f (some nonce) j (engine.marshal p)) e

    lock_applied :
        (f : Fsm lib.Bucket) (nonce : Text) (node : Node) (expires : ℕ) (p : Pod Float)
        → stored_version json (get_state lib gcm f (pod_key p.id)) ≡ p.resource_version
        → apply lib gcm json f (some nonce) (some (try_lock_pod engine node expires p))
          ≡ store_value lib gcm f
              (some nonce)
              (pod_key p.id)
              (engine.marshal (locked engine node expires p))
    unfolding try_lock_pod
    lock_applied f nonce node expires p e =
        granted lib gcm json f nonce (pod_key p.id) p.resource_version
          (try_lock_pod engine node expires p) (refl, refl, refl) e

    -- What the log holds when a node renews a lease right after a pod was written.
    abbrev pub written_then_locked :
        Text → Text → Pod Float → Node → ℕ → Pod Float → List (Text × Option Command)
    written_then_locked n0 n1 p node expires old =
        (n0, some (set_pod engine p)) ∷ (n1, some (try_lock_pod engine node expires old)) ∷ []

    lock_wins :
        (f : Fsm lib.Bucket) (n0 n1 : Text) (p old : Pod Float) (node : Node) (expires : ℕ)
        → ReadsVersions engine json
        → length n0 ≡ gcm.nonce_size
        → length n1 ≡ gcm.nonce_size
        → lib.accepts (pod_key old.id) ≡ true
        → old.resource_version < 0x20000000000000
        → p.id ≡ old.id
        → p.resource_version ≡ old.resource_version
        → ((run lib gcm json f (written_then_locked n0 n1 p node expires old)).1
            ≡ applied ∷ applied ∷ [])
          × (get_state lib gcm
                (run lib gcm json f (written_then_locked n0 n1 p node expires old)).0
                (pod_key old.id)
              ≡ engine.marshal (locked engine node expires old))
    unfolding run
    lock_wins f n0 n1 p old node expires reads l0 l1 a small id version =
        let k = pod_key old.id in
        let f1 = (store_value lib gcm f (some n0) k (engine.marshal p)).0 in
        let (wrote, back) = stored lib gcm json f n0 k (engine.marshal p) l0 a in
        let (locks, back') =
          stored lib gcm json f1 n1 k (engine.marshal (locked engine node expires old)) l1 a in
        let seen : stored_version json (get_state lib gcm f1 k) ≡ old.resource_version =
          ap (stored_version json) back ∙ reads p (omega (arith, version, small)) ∙ version in
        rw
          (
            set_applied f n0 k p (ap pod_key id),
            lock_applied f1 n1 node expires old seen,
            wrote,
            locks,
          )
          (refl, back')

    -- `HandleCompose` writes the new definition of a pod of the same project whose image stays,
    -- and a node then renews the lease of the pod as it was in the list before: both commands are
    -- applied, and what is stored is the old definition. The version is below 2^53, versions that
    -- small are read back as they were written, the store accepts the key of the pod, and the
    -- nonces have their size.
    pub redeploy_lost :
        (f : Fsm lib.Bucket) (n0 n1 project stamp : Text) (old new : Pod Float) (node : Node)
        (expires : ℕ)
        → ReadsVersions engine json
        → length n0 ≡ gcm.nonce_size
        → length n1 ≡ gcm.nonce_size
        → lib.accepts (pod_key old.id) ≡ true
        → old.resource_version < 0x20000000000000
        → old.project ≡ project
        → old.image ≡ new.image
        → (deploy_pod engine project stamp new (some old)
            ≡ set_pod engine (carried_on engine old new) ∷ [])
          × ((run lib gcm json f
                (written_then_locked n0 n1 (carried_on engine old new) node expires old)).1
              ≡ applied ∷ applied ∷ [])
          × (get_state lib gcm
                (run lib gcm json f
                  (written_then_locked n0 n1 (carried_on engine old new) node expires old)).0
                (pod_key old.id)
              ≡ engine.marshal (locked engine node expires old))
    unfolding deploy_pod carried_on
    redeploy_lost f n0 n1 project stamp old new node expires reads l0 l1 a small same image =
        let (results, value) =
          lock_wins f n0 n1 (carried_on engine old new) old node expires reads l0 l1 a small refl
            refl in
        (rw (same, image, equal_refl project, equal_refl new.image) refl, results, value)
