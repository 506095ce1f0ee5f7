-- ===== src/Tests/Agent.antt =====
-- A node without a leader.
use p2ser.Base.{if◌then◌else◌, Any, inl, List, ◌≡◌, refl, true, false, [], ◌∷◌, some, ℕ}
use p2ser.Backend.Agent.Quorum.{Does, fenced_store, fenced_restarts}
use p2ser.Backend.Agent.{Machine, stopped, started, sent, reconcile_pods, fence_stateful_pods}
use p2ser.Backend.Api.{raft_error, status, handle_apply}
use p2ser.Backend.Pod.{Pod}
use p2ser.Backend.Scheduler.{is_up, update_pod}
use p2ser.Backend.Store.{Fsm, get_state}
use p2ser.Dict.{get}
use p2ser.Tests.Backend.{web, one_pod}
use p2ser.Tests.Store.{tiny_engine, tiny_bolt, tiny_gcm, tiny_json}
use p2ser.Text.{codes, equal, truthy_text}

abbrev machine : Machine ℕ
machine = record {
  dials = λ ip port. true;
  http_status = λ ip port path. some 200;
  is_running = λ id. some false;
  run_container = λ p. some (codes "10.0.0.2");
}

abbrev stateful : Pod ℕ
stateful = record web { status = codes "Running"; node_id = codes "n1"; is_stateful = true }

stateful-is_up : is_up stateful ≡ true
unfolding equal
stateful-is_up = refl

abbrev pods_in : Fsm tiny_bolt.Bucket → List (Pod ℕ)
pods_in f =
    if truthy_text (get_state tiny_bolt tiny_gcm f (codes "pod:web")) then stateful ∷ [] else []

stateful_listed : Any (λ q. q ≡ stateful) (pods_in one_pod)
unfolding get_state get equal
stateful_listed = inl refl

fenced_restarts_example :
    Does
      (stopped (codes "web"))
      (fence_stateful_pods tiny_engine machine (codes "n1") (pods_in one_pod))
    × Does
        (sent (update_pod tiny_engine (record stateful { status = codes "Fenced" })))
        (fence_stateful_pods tiny_engine machine (codes "n1") (pods_in one_pod))
    × (handle_apply (codes "POST") false [] true (raft_error []) ≡ status 503)
    × Does (started stateful) (
        reconcile_pods tiny_engine machine (codes "n1") (
          pods_in (
            fenced_store tiny_engine machine
              (codes "n1")
              tiny_bolt
              tiny_gcm
              tiny_json
              one_pod
              (λ c. 7 ∷ [])
              true
              (pods_in one_pod))))
fenced_restarts_example =
    fenced_restarts tiny_engine machine (codes "n1") tiny_bolt tiny_gcm tiny_json pods_in one_pod
      (λ c. 7 ∷ []) true (raft_error []) stateful stateful_listed (refl, refl)
      (stateful-is_up, refl, refl)
