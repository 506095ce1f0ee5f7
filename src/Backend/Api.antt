-- ===== src/Backend/Api.antt =====
-- The handlers of backend/internal/api/api.go that write to the store: `HandleApply`,
-- `HandleDeletePod`, `HandleRestartPod` and `HandleCompose`.
pub mod Committed
pub mod Revoked
pub mod Update
pub mod Gate
pub mod Bots
pub mod Rate
pub mod Pods
use p2ser.Base.{
  ℕ, ◌+◌, ◌%◌, Bool, true, false, not, ◌&&◌, List, [], ◌∷◌, ◌++◌, if◌then◌else◌, Option, none, some,
}
use p2ser.Dict.{Dict, get, put}
use p2ser.Text.{Text, codes, equal, truthy_text}
use p2ser.Backend.Pod.{Pod}
use p2ser.Backend.Scheduler.{Engine, pod_key, delete_pod, word_size}
use p2ser.Backend.Store.{Outcome, Command, set_op}

-- How the log takes a command: it is not committed, or it is, and then it has what `FSM.Apply` gave
-- for its response.
pub data Future : Type 0 where
  raft_error : Text → Future
  committed : Outcome → Future

-- The status of an answer, or the address of the leader that the request goes to.
pub data Answer : Type 0 where
  status : ℕ → Answer
  proxied : Text → Answer

-- `forwardToLeader`, and what is done on the leader
unfoldable pub on_leader : Bool → Text → Answer → Answer
on_leader true leader answer = answer
on_leader false leader answer = if truthy_text leader then proxied leader else status 503

unfoldable pub future_answer : Future → Answer
future_answer (raft_error why) = status 500
future_answer (committed result) = status 200

unfoldable pub read_and_apply : Bool → Future → Answer
unfolding future_answer
read_and_apply false future = status 413
read_and_apply true future = future_answer future

-- `HandleApply`, of a body that may be read or not
unfoldable pub handle_apply : Text → Bool → Text → Bool → Future → Answer
unfolding on_leader read_and_apply
handle_apply method is_leader leader readable future =
    if equal method (codes "POST")
    then on_leader is_leader leader (read_and_apply readable future)
    else status 405

-- What `HandleApply` hands to `raftNode.Apply` on the node that it runs on
unfoldable pub logged : Text → Bool → Bool → Command → List Command
logged method is_leader readable c =
    if equal method (codes "POST") && is_leader && readable then c ∷ [] else []

module _ (engine : Engine) where
  open engine use {Float}

  unfoldable pub set_pod : Pod Float → Command
  set_pod p = record {
    op = set_op;
    key = pod_key p.id;
    value = engine.marshal p;
    expected_version = 0;
  }

  unfoldable pub restarted : Pod Float → Pod Float
  restarted p = record p {
    status = codes "Pending";
    node_id = [];
    resource_version = (p.resource_version + 1) % word_size;
  }

  -- The command of `HandleRestartPod`, on the pod that it reads under the given id
  unfoldable pub restart_command : Text → Pod Float → Command
  unfolding restarted
  restart_command id p = record {
    op = set_op;
    key = pod_key id;
    value = engine.marshal (restarted p);
    expected_version = 0;
  }

  -- `existingByBase`: pods that are being replaced are left out, and of two with one base the later
  -- one counts.
  unfoldable pub existing_by_base : Dict (Pod Float) → List (Pod Float) → Dict (Pod Float)
  existing_by_base pods [] = pods
  existing_by_base pods (p ∷ ps) =
      existing_by_base (if truthy_text p.update_to_pod_id then pods else put pods p.base_id p) ps

  -- A pod whose image stays goes on as it runs.
  unfoldable pub carried_on : Pod Float → Pod Float → Pod Float
  carried_on old new = record new {
    id = old.id;
    status = old.status;
    node_id = old.node_id;
    ready = old.ready;
    resource_version = old.resource_version;
  }

  -- `fmt.Sprintf("%s-%d", newPod.BaseID, …)`, with the digits of the time
  unfoldable pub fresh_id : Text → Pod Float → Text
  fresh_id stamp p = p.base_id ++ b'-' ∷ stamp

  -- The commands for one pod of the file.
  unfoldable pub deploy_pod : Text → Text → Pod Float → Option (Pod Float) → List Command
  unfolding set_pod carried_on fresh_id
  deploy_pod project stamp new none = set_pod new ∷ []
  deploy_pod project stamp new (some old) =
      if equal old.project project
      then (if equal old.image new.image
          then set_pod (carried_on old new) ∷ []
          else set_pod (record old { update_to_pod_id = fresh_id stamp new })
            ∷ set_pod (record new { id = fresh_id stamp new })
            ∷ [])
      else set_pod new ∷ []

  -- The loop of `HandleCompose` where all commands are committed; `stamps` gives the time at each
  -- pod.
  unfoldable pub deploy_pods :
      Text → (ℕ → Text) → ℕ → Dict (Pod Float) → List (Pod Float) → List Command
  unfolding deploy_pod
  deploy_pods project stamps i existing [] = []
  deploy_pods project stamps i existing (p ∷ ps) =
      let new = record p { project = project } in
      deploy_pod project (stamps i) new (get existing p.base_id)
      ++ deploy_pods project stamps (i + 1) existing ps
