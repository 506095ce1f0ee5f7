-- ===== src/Backend/Api/Pods.antt =====
-- `HandleState`, `HandlePods`, `HandleDeletePod`, `HandleGetLogs` and `HandleExecPod` of
-- backend/internal/api/api.go: what a client asks of the pods.
pub mod Named
use p2ser.Base.{
  ℕ, String, ◌-◌, Bool, true, false, not, ◌&&◌, ◌||◌, List, [], ◌∷◌, ◌++◌, ◌==◌, ltb, leb, length,
  if◌then◌else◌, Option, none, some,
}
use p2ser.Dict.{Dict, get}
use p2ser.Text.{Text, codes, equal, truthy_text, within, join}
use p2ser.Backend.Store.Library.{Bolt, Gcm, drop}
use p2ser.Backend.Store.{Fsm, Command, del_op, get_state}
use p2ser.Backend.Store.Cursor.{get_all_pods}
use p2ser.Backend.Scheduler.{pod_key}
use p2ser.Backend.Api.{Answer, status, Future, committed, raft_error}

-- The status of a refusal, or the body of an answer with status 200
pub data Body : Type 0 where
  failed : ℕ → Body
  body : Text → Body

module _ (lib : Bolt) (gcm : Gcm) where
  -- `HandleState`
  unfoldable pub handle_state : Fsm lib.Bucket → Text → Text → Body
  handle_state f method key =
      let val = get_state lib gcm f key in
      if not (equal method (codes "GET"))
      then failed 405
      else if not (truthy_text key)
      then failed 400
      else if truthy_text val
      then body val
      else failed 404

  -- `HandlePods`: the stored texts as the items of an array
  unfoldable pub handle_pods : Fsm lib.Bucket → Text → Body
  handle_pods f method =
      if equal method (codes "GET")
      then body (b'[' ∷ join b',' (get_all_pods lib gcm f) ++ b']' ∷ [])
      else failed 405

unfoldable pub delete_command : Text → Command
delete_command id = record { op = del_op; key = pod_key id; value = []; expected_version = 0 }

-- What a handler answers that does not forward to the leader
unfoldable pub local_answer : Future → Answer
local_answer (raft_error why) = status 500
local_answer (committed result) = status 200

-- `HandleDeletePod`
unfoldable pub handle_delete_pod : Text → Text → (Command → Future) → Answer
unfolding delete_command local_answer
handle_delete_pod method id future =
    if not (equal method (codes "DELETE"))
    then status 405
    else if truthy_text id
    then local_answer (future (delete_command id))
    else status 400

unfoldable pub is_lower_digit : ℕ → Bool
is_lower_digit c = within b'a' b'z' c || within b'0' b'9' c

-- `[a-z0-9\-]*`
unfoldable pub pod_units : Text → Bool
unfolding is_lower_digit
pod_units [] = true
pod_units (c ∷ s) = (is_lower_digit c || c == b'-') && pod_units s

-- `validPodID`: `^[a-z0-9][a-z0-9\-]{0,62}$`
unfoldable pub valid_pod_id : Text → Bool
unfolding pod_units
valid_pod_id [] = false
valid_pod_id (c ∷ s) = is_lower_digit c && pod_units s && leb (length s) 62

-- What `os.ReadFile` gives.
pub data FileRead : Type 0 where
  content : Text → FileRead
  not_there : FileRead
  unreadable : FileRead

-- The last 20000 bytes, where there are more
unfoldable pub last_bytes : Text → Text
last_bytes s = if ltb 20000 (length s) then drop (length s - 20000) s else s

unfoldable pub log_body : FileRead → Body
unfolding last_bytes
log_body (content bytes) = body (last_bytes bytes)
log_body not_there = body (codes "No logs found for this pod yet.")
log_body unreadable = failed 500

-- `HandleGetLogs`, on the files of the node that is asked
unfoldable pub handle_get_logs : Text → Text → (Text → FileRead) → Body
unfolding valid_pod_id log_body
handle_get_logs method id read_file =
    if not (equal method (codes "GET"))
    then failed 405
    else if not (truthy_text id)
    then failed 400
    else if valid_pod_id id
    then log_body (read_file (codes "/tmp/p2ser_" ++ id ++ codes ".log"))
    else failed 400

-- What comes of the request for a terminal.
pub data ExecReply : Type 0 where
  refused : ℕ → ExecReply
  no_upgrade : ExecReply
  told : Text → ExecReply
  dialled : Text → ExecReply
  shell_in : Text → ExecReply

-- `CheckOrigin`
unfoldable pub check_origin : Text → Text → Bool
check_origin origin host =
    not (truthy_text origin)
    || equal origin (codes "https://" ++ host)
    || equal origin (codes "http://" ++ host)

abbrev line_of : String → Text
line_of s = codes s ++ b'\r' ∷ b'\n' ∷ []

unfoldable pub dial : Option Text → Text → ExecReply
dial none id = told (line_of "Node not found")
dial (some addr) id =
    if truthy_text addr
    then dialled (codes "ws://" ++ addr ++ codes "/pod/exec?id=" ++ id)
    else told (line_of "Node not found")

-- The way to the node of the pod, by the servers in the configuration of Raft
unfoldable pub proxy_to : Option (Dict Text) → Text → Text → ExecReply
unfolding dial
proxy_to none node id = told (line_of "Cannot get configuration")
proxy_to (some servers) node id = dial (get servers node) id

module _ (lib : Bolt) (gcm : Gcm) (node_of : Text → Text) where
  -- Behind the upgrade; `node_of` reads the node from the encoded pod.
  unfoldable pub open_terminal : Fsm lib.Bucket → Text → Option (Dict Text) → Text → ExecReply
  unfolding proxy_to
  open_terminal f local servers id =
      let pod = get_state lib gcm f (pod_key id) in
      if not (truthy_text pod)
      then told (line_of "Pod not found in state")
      else if equal (node_of pod) local
      then shell_in id
      else proxy_to servers (node_of pod) id

  -- `HandleExecPod`, where `is_upgrade` says whether the request asks for a web socket
  unfoldable pub handle_exec_pod :
      Fsm lib.Bucket → Text → Option (Dict Text) → Text → Text → Text → Bool → ExecReply
  unfolding valid_pod_id check_origin open_terminal
  handle_exec_pod f local servers id origin host is_upgrade =
      if not (truthy_text id)
      then refused 400
      else if not (valid_pod_id id)
      then refused 400
      else if is_upgrade && check_origin origin host
      then open_terminal f local servers id
      else no_upgrade
