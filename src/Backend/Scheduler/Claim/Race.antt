-- ===== src/Backend/Scheduler/Claim/Race.antt =====
-- Several nodes that take one pod, or renew its lease, from the same list of pods.
use p2ser.Base.{
  ◌≡◌, refl, ap, ◌∙◌, arith, ℕ, ◌+◌, ◌<◌, true, List, [], ◌∷◌, Option, some, length, map, All,
}
use p2ser.Text.{Text}
use p2ser.Backend.Pod.{Pod}
use p2ser.Backend.Scheduler.{Engine, Node, locked, try_lock_pod, pod_key}
use p2ser.Backend.Store.Library.{Bolt, Gcm, Encoding}
use p2ser.Backend.Store.Locks.{Asks, run_first_wins}
use p2ser.Backend.Store.Replicas.{run}
use p2ser.Backend.Store.{Command, applied, cas_failed, Fsm, get_state, stored_version}

-- The whole numbers below 2^53 are numbers of `float64`, so the store reads back the version that
-- `json.Marshal` wrote.
abbrev pub ReadsVersions : Engine → Encoding → Type 0
ReadsVersions engine json =
    (q : Pod engine.Float)
    → q.resource_version < 0x20000000000000
    → stored_version json (engine.marshal q) ≡ q.resource_version

-- A node that asks, when its lease would end, and the nonce of its command in the store.
pub record Claimant : Type 0 where
  pub node : Node
  pub expires : ℕ
  pub nonce : Text

module _ (engine : Engine) where
  unfoldable pub claims : Pod engine.Float → List Claimant → List (Text × Option Command)
  claims p [] = []
  claims p (c ∷ cs) = (c.nonce, some (try_lock_pod engine c.node c.expires p)) ∷ claims p cs

  pub claims-Asks :
      (p : Pod engine.Float) (cs : List Claimant)
      → All
          (λ (e : Text × Option Command). Asks (pod_key p.id) p.resource_version e.1)
          (claims p cs)
  unfolding claims try_lock_pod
  claims-Asks p [] = tt
  claims-Asks p (c ∷ cs) = ((refl, refl, refl), claims-Asks p cs)

  written_version :
      (json : Encoding) (p : Pod engine.Float) (c : Claimant)
      → ReadsVersions engine json
      → p.resource_version + 1 < 0x20000000000000
      → stored_version json (engine.marshal (locked engine c.node c.expires p))
        ≡ p.resource_version + 1
  unfolding locked
  written_version json p c reads small =
      reads (locked engine c.node c.expires p) (omega arith) ∙ omega arith

  module _ (lib : Bolt) (gcm : Gcm) (json : Encoding) where
    -- Of the nodes that try to take a pod, or to renew its lease, from one list of pods, whichever
    -- comes first in the log gets it: the pod in the store names that node and its lease, and all
    -- others fail. The version in the list is the stored one and the next is below 2^53, versions
    -- that small are read back as they were written, the store accepts the key of the pod, and the
    -- nonce of the first command has its size.
    pub claims_first_wins :
        (f : Fsm lib.Bucket) (p : Pod engine.Float) (c : Claimant) (cs : List Claimant)
        → ReadsVersions engine json
        → length c.nonce ≡ gcm.nonce_size
        → lib.accepts (pod_key p.id) ≡ true
        → stored_version json (get_state lib gcm f (pod_key p.id)) ≡ p.resource_version
        → p.resource_version + 1 < 0x20000000000000
        → ((run lib gcm json f (claims p (c ∷ cs))).1
            ≡ applied
              ∷ map (λ _. cas_failed p.resource_version (p.resource_version + 1)) (claims p cs))
          × (get_state lib gcm (run lib gcm json f (claims p (c ∷ cs))).0 (pod_key p.id)
              ≡ engine.marshal (locked engine c.node c.expires p))
    unfolding claims try_lock_pod locked
    claims_first_wins f p c cs reads n a e small =
        let v = p.resource_version in
        let seen = written_version json p c reads small in
        let (results, value) =
          run_first_wins lib gcm json f c.nonce (pod_key p.id) v
            (try_lock_pod engine c.node c.expires p) (claims p cs) n a (refl, refl, refl)
            (claims-Asks p cs) e (omega (arith, seen)) in
        (results ∙ ap (λ (w : ℕ). applied ∷ map (λ _. cas_failed v w) (claims p cs)) seen, value)
