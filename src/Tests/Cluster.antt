-- ===== src/Tests/Cluster.antt =====
-- Failover, updates and deployments on a small cluster.
use p2ser.Base.{
  sym, ◌∙◌, ◌≡◌, ◌≢◌, refl, arith, ℕ, ◌≤◌, true, false, List, [], ◌∷◌, ◌++◌, none, some, length,
  All, Any, inl, inr, map,
}
use p2ser.Dict.{get}
use p2ser.Json.{get_field, str, obj, field, end}
use p2ser.Text.{Text, codes, equal}
use p2ser.Backend.Api.Revoked.{restart_revokes}
use p2ser.Backend.Api.Update.{redeploy_lost, written_then_locked}
use p2ser.Backend.Api.{restarted, restart_command, deploy_pod, set_pod, carried_on}
use p2ser.Backend.Compose.Replicas.{service_pods_bounds}
use p2ser.Backend.Compose.{Service, Request, contains, service_pods}
use p2ser.Backend.Pod.{Pod}
use p2ser.Backend.Scheduler.Claim.Race.{claims}
use p2ser.Backend.Scheduler.Rolling.{IsReplacedIn, deletes_for-IsReplacedIn}
use p2ser.Backend.Scheduler.Split.{promoted_store, IsOther, to_promote_again}
use p2ser.Backend.Scheduler.{
  pod_key, locked, to_promote, is_local_standby, has_dead_active, confirmed_dead, is_expired,
  says_alive, deletes_for, delete_pod, is_up, promoted, new_standby, reconcile_standby,
}
use p2ser.Backend.Store.Cursor.{has_prefix}
use p2ser.Backend.Store.Replicas.{run}
use p2ser.Backend.Store.Library.{Ascending, before}
use p2ser.Backend.Store.{applied, cas_failed, get_state, Fsm, Command, apply}
use p2ser.Tests.Backend.{web, here, there, one_pod, claimant, tiny_reads}
use p2ser.Tests.Store.{insert, tiny_bolt, tiny_gcm, tiny_json, tiny_engine}

abbrev fallen : Pod ℕ
fallen = record web { status = codes "Running"; lease_expires_at = 2; node_id = codes "n0" }

abbrev standby_of : Text → Pod ℕ
standby_of id = record web {
  id = codes "standby-" ++ id;
  status = codes "Running";
  role = codes "Standby";
  node_id = id;
}

abbrev pods : List (Pod ℕ)
pods = fallen ∷ standby_of (codes "n1") ∷ standby_of (codes "n2") ∷ []

promotes_here : to_promote here 9 pods pods ≡ some (standby_of (codes "n1"))
unfolding to_promote is_local_standby has_dead_active confirmed_dead is_expired says_alive equal
promotes_here = refl

promotes_there : to_promote there 9 pods pods ≡ some (standby_of (codes "n2"))
unfolding to_promote is_local_standby has_dead_active confirmed_dead is_expired says_alive equal
promotes_there = refl

is_some : to_promote there 9 pods pods ≢ none
is_some e = ground (arith, promotes_there)

other_name : codes "n1" ≢ codes "n2"
other_name e = ground arith

abbrev heir : Pod ℕ
heir = standby_of (codes "n1")

abbrev three_entries : List (Text × Text)
three_entries =
    (codes "pod:standby-n1", 9 ∷ tiny_engine.marshal heir)
    ∷ (codes "pod:standby-n2", 9 ∷ tiny_engine.marshal (standby_of (codes "n2")))
    ∷ (codes "pod:web", 9 ∷ tiny_engine.marshal fallen)
    ∷ []

three_ascend : Ascending three_entries
unfolding before
three_ascend = ((refl, (refl, tt)), ((refl, tt), (tt, tt)))

abbrev three_pods : Fsm tiny_bolt.Bucket
three_pods = record { db = (three_entries, three_ascend); secret_key = codes "key" }

abbrev seven : Command → Text
seven c = 7 ∷ []

abbrev after_promotion : Fsm tiny_bolt.Bucket
after_promotion =
    promoted_store tiny_engine tiny_bolt tiny_gcm tiny_json three_pods seven here 9 20 (codes "9")
      pods

others :
    All (IsOther tiny_engine (codes "9") heir) (fallen ∷ [])
    × All (IsOther tiny_engine (codes "9") heir) (standby_of (codes "n2") ∷ [])
unfolding equal new_standby
others = (((refl, refl), tt), ((refl, refl), tt))

heir_after : get_state tiny_bolt tiny_gcm after_promotion (pod_key heir.id) ≡ 4 ∷ codes "Runningn1"
unfolding get_state get run reconcile_standby equal apply get_field insert before
heir_after = refl

heir_before : get_state tiny_bolt tiny_gcm three_pods (pod_key heir.id) ≡ 3 ∷ codes "Runningn1"
unfolding get_state get equal
heir_before = refl

heir_changed :
    get_state tiny_bolt tiny_gcm after_promotion (pod_key heir.id)
    ≢ get_state tiny_bolt tiny_gcm three_pods (pod_key heir.id)
heir_changed e = let c = sym heir_after ∙ e ∙ heir_before in ground arith

abbrev pods_later : List (Pod ℕ)
pods_later =
    new_standby tiny_engine (codes "9") heir
    ∷ locked tiny_engine here 20 (promoted heir)
    ∷ standby_of (codes "n2")
    ∷ fallen
    ∷ []

to_promote_again_example : to_promote there 9 pods_later pods_later ≢ none
to_promote_again_example =
    to_promote_again tiny_engine tiny_bolt tiny_gcm tiny_json three_pods seven here there 9 20
      (codes "9") (fallen ∷ []) heir (standby_of (codes "n2") ∷ []) pods_later other_name
      promotes_here is_some others
      (
        λ kept. inr (inr (inr (inl refl))),
        (λ kept. absurd (heir_changed kept), (λ kept. inr (inr (inl refl)), tt)),
      )

abbrev newer : Pod ℕ
newer = record web { id = codes "web-7"; image = codes "nginx:2"; status = codes "Running" }

abbrev older : Pod ℕ
older = record web { status = codes "Running"; update_to_pod_id = codes "web-7" }

deletes_for-IsReplacedIn_example :
    All
      (λ c.
        Any
          (λ old. (c ≡ delete_pod old.id) × IsReplacedIn (older ∷ newer ∷ []) old)
          (older ∷ newer ∷ []))
      (deletes_for (older ∷ newer ∷ []) (older ∷ newer ∷ []))
deletes_for-IsReplacedIn_example = deletes_for-IsReplacedIn (older ∷ newer ∷ [])

abbrev request : Request
request = record {
  project_name = codes "shop";
  env_map = [];
  working_dir = [];
  join_path = λ a b. a ++ b;
  password = λ name. codes "s3cret";
}

abbrev database : Service ℕ
database = record {
  image = codes "postgres";
  user = [];
  ports = [];
  volumes = [];
  environment = some (obj (field (codes "POSTGRES_PASSWORD") (str []) end));
  deploy = some 200;
  depends_on = none;
  x_k1n_standby = 2;
  x_userns_remap = false;
}

running_is_up : is_up (record web { status = codes "Running" }) ≡ true
unfolding equal
running_is_up = refl

service_pods_bounds_example :
    (actives standbys : List (Pod ℕ)) × (service_pods 0 request (codes "db") database
      ≡ actives ++ standbys)
    × All (λ p. p.role ≡ codes "Active") actives
    × (1 ≤ length actives)
    × (length actives ≤ 100)
    × All (λ p. p.role ≡ codes "Standby") standbys
    × (length standbys ≡ 2)
service_pods_bounds_example = service_pods_bounds 0 request (codes "db") database

is_postgres : contains (codes "postgres") (codes "postgres") ≡ true
unfolding contains has_prefix
is_postgres = refl

abbrev new_env : Pod ℕ
new_env = record web { env = codes "DEBUG=1" ∷ [] }

redeploy_lost_example :
    (deploy_pod tiny_engine (codes "shop") (codes "5") new_env (some web)
      ≡ set_pod tiny_engine (carried_on tiny_engine web new_env) ∷ [])
    × ((run tiny_bolt tiny_gcm tiny_json one_pod (
          written_then_locked tiny_engine tiny_bolt tiny_gcm tiny_json
            (1 ∷ [])
            (2 ∷ [])
            (carried_on tiny_engine web new_env)
            here
            20
            web)).1
        ≡ applied ∷ applied ∷ [])
    × (get_state tiny_bolt tiny_gcm
          (run tiny_bolt tiny_gcm tiny_json one_pod (
            written_then_locked tiny_engine tiny_bolt tiny_gcm tiny_json
              (1 ∷ [])
              (2 ∷ [])
              (carried_on tiny_engine web new_env)
              here
              20
              web)).0
          (pod_key web.id)
        ≡ tiny_engine.marshal (locked tiny_engine here 20 web))
redeploy_lost_example =
    redeploy_lost tiny_engine tiny_bolt tiny_gcm tiny_json one_pod (1 ∷ []) (2 ∷ []) (codes "shop")
      (codes "5") web new_env here 20 tiny_reads refl refl refl (omega arith) refl refl

restart_revokes_example :
    ((run tiny_bolt tiny_gcm tiny_json one_pod (
        (9 ∷ [], some (restart_command tiny_engine web.id web))
        ∷ claims tiny_engine web (claimant here 1 ∷ []))).1
      ≡ applied ∷ map (λ _. cas_failed 3 4) (claims tiny_engine web (claimant here 1 ∷ [])))
    × (get_state tiny_bolt tiny_gcm
          (run tiny_bolt tiny_gcm tiny_json one_pod (
            (9 ∷ [], some (restart_command tiny_engine web.id web))
            ∷ claims tiny_engine web (claimant here 1 ∷ []))).0
          (pod_key web.id)
        ≡ tiny_engine.marshal (restarted tiny_engine web))
restart_revokes_example =
    restart_revokes tiny_engine tiny_bolt tiny_gcm tiny_json one_pod (9 ∷ []) web
      (claimant here 1 ∷ []) tiny_reads refl refl (omega arith)
