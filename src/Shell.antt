-- ===== src/Shell.antt =====
-- The frame of `App`: the tabs, the windows over them, and the buttons of a pod.
pub mod Windows
pub mod Deleted
use p2ser.Base.{
  ◌≡◌, Bool, true, false, not, ◌&&◌, List, [], ◌∷◌, ◌++◌, Option, none, some, if◌then◌else◌,
}
use p2ser.Api.{Reply, response, failure}
use p2ser.Dashboard.{Row, Project}
use p2ser.Text.{Text, codes, truthy_text, equal}

pub data Tab : Type 0 where
  dashboard : Tab
  projects_tab : Tab
  converter : Tab
  settings : Tab

-- The title of the page.
unfoldable pub page_title : Tab → Text
page_title dashboard = codes "Cluster Overview"
page_title projects_tab = codes "Namespaces & Projects"
page_title converter = codes "Compose → P2SER Converter"
page_title settings = codes "Cluster Settings"

pub record LogsModal : Type 0 where
  pub logs_show : Bool
  pub logs_title : Text
  pub logs_content : Text

pub record TerminalModal : Type 0 where
  pub terminal_show : Bool
  pub terminal_pod : Text
  pub terminal_name : Text

pub record Shell : Type 0 where
  pub tab : Tab
  pub logs : LogsModal
  pub terminal : TerminalModal

abbrev pub no_logs : LogsModal
no_logs = record { logs_show = false; logs_title = []; logs_content = [] }

abbrev pub no_terminal : TerminalModal
no_terminal = record { terminal_show = false; terminal_pod = []; terminal_name = [] }

abbrev pub first_shell : Shell
first_shell = record { tab = dashboard; logs = no_logs; terminal = no_terminal }

-- The buttons of a pod that send a request.
pub data Action : Type 0 where
  show_logs : Action
  restart : Action
  stop : Action

-- The address behind `API_BASE`, and the method.
unfoldable pub action_request : Action → Text → Text × Text
action_request show_logs id = (codes "/pod/logs?id=" ++ id, codes "GET")
action_request restart id = (codes "/pod/restart?id=" ++ id, codes "POST")
action_request stop id = (codes "/pod?id=" ++ id, codes "DELETE")

-- What comes of the answer: the window of the logs, or an alert.
pub data Outcome : Type 0 where
  window : LogsModal → Outcome
  alerted : Text → Outcome

-- `text || '(Empty)'`
unfoldable pub logs_text : Text → Text
logs_text text = if truthy_text text then text else codes "(Empty)"

unfoldable pub answered : Action → Text → Reply → Outcome
unfolding logs_text
answered show_logs name (response true text) = window (record {
  logs_show = true;
  logs_title = codes "Logs for " ++ name;
  logs_content = logs_text text;
})
answered show_logs name (response false text) = alerted (codes "Failed to fetch logs")
answered restart name (response true text) = alerted (codes "Pod restart initiated!")
answered restart name (response false text) = alerted (codes "Failed to restart pod: " ++ text)
answered stop name (response true text) = alerted (codes "Pod stopped (deleted from cluster)")
answered stop name (response false text) = alerted (codes "Failed to stop pod: " ++ text)
answered _ name (failure why) = alerted (codes "Error: " ++ why)

pub data Event : Type 0 where
  tab_clicked : Tab → Event
  terminal_clicked : Text → Text → Event
  terminal_closed : Event
  action_answered : Action → Text → Reply → Event
  logs_closed : Event

unfoldable pub show_outcome : Shell → Outcome → Shell × List Text
show_outcome s (window modal) = (record s { logs = modal }, [])
show_outcome s (alerted text) = (s, text ∷ [])

-- A handler, and what it alerts.
unfoldable pub step : Shell → Event → Shell × List Text
unfolding answered show_outcome
step s (tab_clicked t) = (record s { tab = t }, [])
step s (terminal_clicked id name) = (
  record s { terminal = record { terminal_show = true; terminal_pod = id; terminal_name = name } },
  [],
)
step s terminal_closed = (record s { terminal = no_terminal }, [])
step s (action_answered action name reply) = show_outcome s (answered action name reply)
step s logs_closed = (record s { logs = no_logs }, [])

unfoldable pub run : Shell → List Event → Shell
run s [] = s
run s (e ∷ es) = run (step s e).0 es

-- The button `Delete` of a project: `projects.filter(p => p.id !== proj.id)`
unfoldable pub delete_project : Text → List Project → List Project
delete_project id [] = []
delete_project id (p ∷ ps) =
    let rest = delete_project id ps in if equal p.project_id id then rest else p ∷ rest
