-- ===== src/Tests/Pages.antt =====
-- The pages: requests, projects, the dashboard and the converter's session.
use p2ser.Base.{ℕ, ◌≡◌, refl, none, some, List, [], ◌∷◌, true, false}
use p2ser.Api.{Browser, Reply, response}
use p2ser.Converter.Files.{File}
use p2ser.Converter.Session.Complete.{output_yaml-global_edited}
use p2ser.Converter.Session.{
  value, Services, set_replicas, yaml_read, global_edited, initial, step, run, output_yaml,
}
use p2ser.Dashboard.{
  Row, Sum, count_pods, count_pod, count_into, new_sum, add_pod, or_zero, project_name,
}
use p2ser.Dict.{get, put}
use p2ser.Json.{obj, index_key}
use p2ser.Projects.Deploy.{sends, deploy_twice}
use p2ser.Projects.Edits.{set_mode, files_chosen, edit_page, edit_pages}
use p2ser.Projects.{
  Upload, Page, first_form, Engine, deploy, choose_files, has_compose, is_compose, is_git,
}
use p2ser.Tests.Data.{tiny_js, compose}
use p2ser.Text.{Text, codes, equal}

abbrev browser : Browser
browser = record { storage = []; protocol = codes "http:"; hostname = codes "edge" }

abbrev json_headers : List (Text × Text)
json_headers = (codes "Content-Type", codes "application/json") ∷ []

abbrev engine : Engine
engine = record { now = codes "0"; undefined_trim = codes "undefined" }

abbrev upload_file : Upload
upload_file = record { name = codes "docker-compose.yml"; path = codes "app/docker-compose.yml" }

abbrev page : Page
page = record { form = first_form; files = upload_file ∷ []; show_modal = true; projects = [] }

abbrev empty_page : Page
empty_page = record page { files = [] }

abbrev accepted : Reply
accepted = response true (codes "ok")

abbrev rejected : Reply
rejected = response false (codes "no")

page-sends : sends (deploy engine page accepted).1 ≡ true
unfolding deploy is_git equal has_compose is_compose
page-sends = refl

again_folder :
    is_git engine
      (edit_pages index_key
        (deploy engine page accepted).0
        (set_mode (codes "folder") ∷ files_chosen (upload_file ∷ []) ∷ [])).form.mode
    ≡ false
unfolding deploy is_git equal has_compose is_compose edit_page edit_pages choose_files
again_folder = refl

deploy_twice_example :
    sends
      (deploy engine
        (edit_pages index_key
          (deploy engine page accepted).0
          (set_mode (codes "folder") ∷ files_chosen (upload_file ∷ []) ∷ []))
        accepted).1
    ≡ false
deploy_twice_example =
    deploy_twice engine page accepted accepted index_key
      (set_mode (codes "folder") ∷ files_chosen (upload_file ∷ []) ∷ []) page-sends (tt, (tt, tt))
      again_folder

abbrev row : Text → Row ℕ
row p = record {
  row_id = codes "1";
  row_name = codes "n";
  row_image = codes "i";
  row_status = codes "running";
  uptime = codes "Live";
  row_project = some p;
  row_app = none;
  row_cpu = some 2;
  row_ram = none;
  row_dir = none;
}

abbrev rows : List (Row ℕ)
rows = row (codes "a") ∷ row (codes "constructor") ∷ row (codes "a") ∷ []

abbrev a_sum : Sum ℕ
a_sum = record { sum_name = codes "a"; sum_dir = []; cpu = 4; ram = 0; pods_count = 2 }

a_counted : get (count_pods tiny_js [] rows) (codes "a") ≡ some a_sum
unfolding count_pods count_pod count_into project_name new_sum add_pod or_zero get put equal
a_counted = refl

abbrev library : Services tiny_js
library = record {
  load = λ t. value (obj compose);
  dump = λ f. codes "yaml";
  message = λ f. codes "error";
}

abbrev yaml_file : File
yaml_file = record { name = codes "c.yml"; content = codes "services:" }

abbrev env_file : File
env_file = record { name = codes ".env"; content = codes "TAG=1.2" }

output_yaml-global_edited_example :
    output_yaml tiny_js library (codes "now") (
      step tiny_js library
        (run tiny_js library (initial tiny_js) (yaml_read yaml_file ∷ []))
        (global_edited (set_replicas 5)))
    ≡ output_yaml tiny_js library
        (codes "now")
        (run tiny_js library (initial tiny_js) (yaml_read yaml_file ∷ []))
output_yaml-global_edited_example =
    output_yaml-global_edited tiny_js library (yaml_read yaml_file ∷ []) (set_replicas 5)
      (codes "now")
