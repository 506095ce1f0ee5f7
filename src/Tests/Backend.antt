-- ===== src/Tests/Backend.antt =====
-- The store and the scheduler on a small cluster.
use p2ser.Base.{
  ◌≡◌, refl, arith, inl, inr, Bool-cases, fun_ext, ℕ, true, List, [], ◌∷◌, Option, none, some,
  First, map,
}
use p2ser.Dict.{Dict, get, put}
use p2ser.Json.{get_field}
use p2ser.Text.{Text, codes, equal, truthy_text}
use p2ser.Backend.Pod.{Pod, no_pod}
use p2ser.Backend.Scheduler.Claim.Eligible.{IsFree, first_eligible-First}
use p2ser.Backend.Scheduler.Claim.Progress.{claim_progress}
use p2ser.Backend.Scheduler.Claim.Race.{ReadsVersions, Claimant, claims, claims_first_wins}
use p2ser.Backend.Scheduler.Claim.{claim, first_eligible}
use p2ser.Backend.Scheduler.{Node, pod_key, locked}
use p2ser.Backend.Store.Replicas.{run, run_replicas}
use p2ser.Backend.Store.Snapshot.RoundTrip.{restore-snapshot}
use p2ser.Backend.Store.Snapshot.{snapshot, restore, clone_entries, clone_value}
use p2ser.Backend.Store.View.{view, spec_apply, apply_refines, view_value}
use p2ser.Backend.Store.{
  Command, set_op, cas_op, applied, cas_failed, Fsm, get_state, stored_version, version_of,
  version_field, decrypt_found, decrypt, or_nil, apply,
}
use p2ser.Tests.Store.{tiny_bolt, tiny_gcm, tiny_json, tiny_engine}

abbrev pub web : Pod ℕ
web = record (no_pod 0) {
  id = codes "web";
  base_id = codes "web";
  image = codes "nginx";
  status = codes "Pending";
  resource_version = 3;
  project = codes "shop";
  app = codes "web";
  role = codes "Active";
}

-- A node that is alone
abbrev pub node_of : Text → Node
node_of id = record {
  node_id = id;
  arch = codes "amd64";
  free_ram = 64;
  is_node_alive = none;
  container_checker = none;
}

abbrev pub here : Node
here = node_of (codes "n1")

abbrev pub there : Node
there = node_of (codes "n2")

-- A store with one pod
abbrev pub one_pod : Fsm tiny_bolt.Bucket
one_pod = record {
  db = ((codes "pod:web", 9 ∷ tiny_engine.marshal web) ∷ [], (tt, tt));
  secret_key = codes "key";
}

no_pods : Fsm tiny_bolt.Bucket
no_pods = record { db = ([], tt); secret_key = codes "other" }

pub web_version :
    stored_version tiny_json (get_state tiny_bolt tiny_gcm one_pod (pod_key web.id)) ≡ 3
unfolding stored_version version_of version_field get_field get_state decrypt_found decrypt or_nil
    get equal
web_version = refl

pub tiny_reads : ReadsVersions tiny_engine tiny_json
unfolding stored_version version_of version_field get_field equal
tiny_reads q h = refl

abbrev set_web : Command
set_web = record {
  op = set_op;
  key = codes "pod:web";
  value = 4 ∷ codes "Running";
  expected_version = 0;
}

apply_refines_example :
    ((apply tiny_bolt tiny_gcm tiny_json one_pod (some (7 ∷ [])) (some set_web)).1
      ≡ (spec_apply truthy_text tiny_json (view tiny_bolt tiny_gcm one_pod) (some set_web)).1)
    × (view tiny_bolt tiny_gcm
          (apply tiny_bolt tiny_gcm tiny_json one_pod (some (7 ∷ [])) (some set_web)).0
        ≡ (spec_apply truthy_text tiny_json (view tiny_bolt tiny_gcm one_pod) (some set_web)).0)
apply_refines_example =
    apply_refines tiny_bolt tiny_gcm tiny_json one_pod (7 ∷ []) (some set_web) refl

abbrev log_of : ℕ → List (Text × Option Command)
log_of n =
    (n ∷ [], some set_web)
    ∷ (n ∷ [], some (record set_web { op = cas_op; expected_version = 9 }))
    ∷ (n ∷ [], none)
    ∷ []

-- The same pod under another key, sealed with another nonce
abbrev second_store : Fsm tiny_bolt.Bucket
second_store = record {
  db = ((codes "pod:web", 8 ∷ tiny_engine.marshal web) ∷ [], (tt, tt));
  secret_key = codes "second";
}

same_view : view tiny_bolt tiny_gcm one_pod ≡ view tiny_bolt tiny_gcm second_store
unfolding view_value get decrypt
same_view =
    fun_ext
      λ k. elim (Bool-cases (equal (codes "pod:web") k)) [ inl e ↦ rw e refl | inr e ↦ rw e refl ]

run_replicas_example :
    ((run tiny_bolt tiny_gcm tiny_json one_pod (log_of 1)).1
      ≡ (run tiny_bolt tiny_gcm tiny_json second_store (log_of 2)).1)
    × (view tiny_bolt tiny_gcm (run tiny_bolt tiny_gcm tiny_json one_pod (log_of 1)).0
        ≡ view tiny_bolt tiny_gcm (run tiny_bolt tiny_gcm tiny_json second_store (log_of 2)).0)
run_replicas_example =
    run_replicas tiny_bolt tiny_gcm tiny_json one_pod second_store (log_of 1) (log_of 2)
      (refl, (refl, (refl, tt))) (refl, (refl, (refl, tt))) refl same_view

abbrev web_entry : Dict Text
web_entry = (codes "pod:web", tiny_engine.marshal web) ∷ []

restore-snapshot_example :
    ((restore tiny_bolt tiny_gcm no_pods (λ n. some (n ∷ [])) (some web_entry)).1 ≡ true)
    × (view tiny_bolt tiny_gcm
          (restore tiny_bolt tiny_gcm no_pods (λ n. some (n ∷ [])) (some web_entry)).0
        ≡ view tiny_bolt tiny_gcm one_pod)
unfolding snapshot clone_entries clone_value decrypt get put equal
restore-snapshot_example =
    restore-snapshot tiny_bolt tiny_gcm one_pod no_pods (λ n. n ∷ []) web_entry (λ n. refl)
      (λ k. refl) (refl, tt) (refl, tt)

first_eligible-First_example :
    First
      (IsFree tiny_engine here 5 (web ∷ []))
      (web ∷ [])
      (first_eligible tiny_engine here 5 (web ∷ []) (web ∷ []))
first_eligible-First_example = first_eligible-First tiny_engine here 5 (web ∷ []) (web ∷ [])

abbrev pub claimant : Node → ℕ → Claimant
claimant node n = record { node = node; expires = 20; nonce = n ∷ [] }

claims_first_wins_example :
    ((run tiny_bolt tiny_gcm tiny_json one_pod
        (claims tiny_engine web (claimant here 1 ∷ claimant there 2 ∷ []))).1
      ≡ applied ∷ map (λ _. cas_failed 3 4) (claims tiny_engine web (claimant there 2 ∷ [])))
    × (get_state tiny_bolt tiny_gcm
          (run tiny_bolt tiny_gcm tiny_json one_pod
            (claims tiny_engine web (claimant here 1 ∷ claimant there 2 ∷ []))).0
          (pod_key web.id)
        ≡ tiny_engine.marshal (locked tiny_engine here 20 web))
claims_first_wins_example =
    claims_first_wins tiny_engine tiny_bolt tiny_gcm tiny_json one_pod web (claimant here 1)
      (claimant there 2 ∷ []) tiny_reads refl refl web_version (omega arith)

web-IsFree : IsFree tiny_engine here 5 (web ∷ []) web
web-IsFree = record { waits = inl refl; depends = tt; fits_arch = inl refl; fits_ram = refl }

claim_progress_example :
    (p : Pod ℕ) × IsFree tiny_engine here 5 (web ∷ []) p
    × (get_state tiny_bolt tiny_gcm
          (run tiny_bolt tiny_gcm tiny_json one_pod (
            map
              (λ c. (7 ∷ [], some c))
              (claim tiny_engine here 20
                (first_eligible tiny_engine here 5 (web ∷ []) (web ∷ []))))).0
          (pod_key p.id)
        ≡ tiny_engine.marshal (locked tiny_engine here 20 p))
claim_progress_example =
    claim_progress tiny_engine tiny_bolt tiny_gcm tiny_json one_pod here 5 20 (7 ∷ []) (web ∷ [])
      tiny_reads refl ((web_version, refl, omega arith), tt) (inl web-IsFree)
