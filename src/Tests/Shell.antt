-- ===== src/Tests/Shell.antt =====
-- The frame of the page.
use p2ser.Base.{ℕ, ◌≡◌, refl, List, [], ◌∷◌, none, true}
use p2ser.Api.{response, failure}
use p2ser.Dashboard.{Cluster, Project}
use p2ser.Shell.{
  Event, first_shell, restart, show_logs, action_answered, terminal_clicked, logs_closed, step,
  answered, show_outcome,
}
use p2ser.Text.{codes}

abbrev clicks : List Event
clicks =
    terminal_clicked (codes "1") (codes "web")
    ∷ action_answered show_logs (codes "web") (response true (codes "ready"))
    ∷ logs_closed
    ∷ []

alerts_once :
    (step first_shell (action_answered restart (codes "web") (failure (codes "offline")))).1
    ≡ codes "Error: offline" ∷ []
unfolding step answered show_outcome
alerts_once = refl

abbrev old_project : Project
old_project = record {
  project_id = codes "web";
  title = codes "web";
  project_dir = none;
  cpu_quota = codes "Auto";
  ram_quota = codes "Auto";
  storage_quota = none;
  pods = codes "1";
}

abbrev cluster : Cluster ℕ
cluster = record {
  stats = record { cpu_load = []; ram_used = []; ram_total = []; geo_ip_error = none };
  active_pods = 0;
  rows = [];
  projects = old_project ∷ [];
}
