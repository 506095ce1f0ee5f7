-- ===== src/Backend/Api/Revoked.antt =====
-- A pod that is restarted or deleted is lost to the node that runs it.
use p2ser.Base.{◌≡◌, refl, ◌∙◌, arith, ◌+◌, ◌<◌, true, List, ◌∷◌, some, length, map}
use p2ser.Text.{Text}
use p2ser.Backend.Api.{restarted, restart_command}
use p2ser.Backend.Pod.{Pod}
use p2ser.Backend.Scheduler.Claim.Race.{ReadsVersions, Claimant, claims, claims-Asks}
use p2ser.Backend.Scheduler.{Engine, pod_key}
use p2ser.Backend.Store.Library.{Bolt, Gcm, Encoding}
use p2ser.Backend.Store.Locks.{others_taken, stored}
use p2ser.Backend.Store.Replicas.{run}
use p2ser.Backend.Store.{
  applied, cas_failed, Fsm, get_state, stored_version, apply, update, store_value,
}

module _ (engine : Engine) (lib : Bolt) (gcm : Gcm) (json : Encoding) where
  restarted_version :
      (p : Pod engine.Float)
      → ReadsVersions engine json
      → p.resource_version + 1 < 0x20000000000000
      → stored_version json (engine.marshal (restarted engine p)) ≡ p.resource_version + 1
  unfolding restarted
  restarted_version p reads small = reads (restarted engine p) (omega arith) ∙ omega arith

  restart_applied :
      (f : Fsm lib.Bucket) (nonce : Text) (p : Pod engine.Float)
      → apply lib gcm json f (some nonce) (some (restart_command engine p.id p))
        ≡ store_value lib gcm f (some nonce) (pod_key p.id) (engine.marshal (restarted engine p))
  unfolding apply update restart_command
  restart_applied f nonce p = refl

  restart_run :
      (f : Fsm lib.Bucket) (nonce : Text) (p : Pod engine.Float) (cs : List Claimant)
      → ReadsVersions engine json
      → length nonce ≡ gcm.nonce_size
      → lib.accepts (pod_key p.id) ≡ true
      → p.resource_version + 1 < 0x20000000000000
      → run lib gcm json f ((nonce, some (restart_command engine p.id p)) ∷ claims engine p cs) ≡ (
        (store_value lib gcm f (some nonce) (pod_key p.id) (engine.marshal (restarted engine p))).0,
        applied
            ∷ map
                (λ _. cas_failed p.resource_version (p.resource_version + 1))
                (claims engine p cs),
      )
  unfolding run
  restart_run f nonce p cs reads n a small =
      let k = pod_key p.id in
      let v = p.resource_version in
      let value = engine.marshal (restarted engine p) in
      let (result, back) = stored lib gcm json f nonce k value n a in
      let seen = restarted_version p reads small in
      rw
        (
          restart_applied f nonce p,
          others_taken lib gcm json (store_value lib gcm f (some nonce) k value).0 k v
              (claims engine p cs) (claims-Asks engine p cs) (rw (back, seen) (omega arith)),
          back,
          result,
          seen,
        )
        refl

  -- After `HandleRestartPod` the pod is pending with the next version, and all attempts to take
  -- it, or to renew its lease, that were made from the list before fail. The next version is below
  -- 2^53, versions that small are read back as they were written, the store accepts the key of the
  -- pod, and the nonce has its size.
  pub restart_revokes :
      (f : Fsm lib.Bucket) (nonce : Text) (p : Pod engine.Float) (cs : List Claimant)
      → ReadsVersions engine json
      → length nonce ≡ gcm.nonce_size
      → lib.accepts (pod_key p.id) ≡ true
      → p.resource_version + 1 < 0x20000000000000
      → ((run lib gcm json f ((nonce, some (restart_command engine p.id p)) ∷ claims engine p cs)).1
          ≡ applied
            ∷ map
                (λ _. cas_failed p.resource_version (p.resource_version + 1))
                (claims engine p cs))
        × (get_state lib gcm
              (run lib gcm json f
                ((nonce, some (restart_command engine p.id p)) ∷ claims engine p cs)).0
              (pod_key p.id)
            ≡ engine.marshal (restarted engine p))
  restart_revokes f nonce p cs reads n a small =
      let value = engine.marshal (restarted engine p) in
      let (result, back) = stored lib gcm json f nonce (pod_key p.id) value n a in
      rw (restart_run f nonce p cs reads n a small) (refl, back)
