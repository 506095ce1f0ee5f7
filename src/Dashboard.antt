-- ===== src/Dashboard.antt =====
-- The polling of `App`: pods and statistics of the cluster, and the projects that are built from
-- the pods.
pub mod Groups
pub mod Refresh
pub mod View
use p2ser.Base.{
  ℕ, ◌+◌, Bool, true, false, List, [], ◌∷◌, ◌++◌, Option, none, some, if◌then◌else◌, map, length,
}
use p2ser.Dict.{Dict, get, put}
use p2ser.Json.Platform.{Platform}
use p2ser.Text.{Text, codes, truthy_text, equal}

-- `a || b` on texts, where `a` may be `undefined`
abbrev pub or_text : Option Text → Text → Text
or_text none b = b
or_text (some a) b = if truthy_text a then a else b

-- A pod as the backend sends it.
pub record Pod (Num : Type 0) : Type 0 where
  pub id : Text
  pub name : Option Text
  pub app : Option Text
  pub project : Option Text
  pub image : Text
  pub status : Text
  pub dir : Option Text
  pub cpu_req : Option Num
  pub ram_req : Option Num

-- A pod as the page shows it.
pub record Row (Num : Type 0) : Type 0 where
  pub row_id : Text
  pub row_name : Text
  pub row_image : Text
  pub row_status : Text
  pub uptime : Text
  pub row_project : Option Text
  pub row_app : Option Text
  pub row_cpu : Option Num
  pub row_ram : Option Num
  pub row_dir : Option Text

-- The body of `/pods`: an array, an object with `namespaces`, or any other object.
pub data PodsBody (Num : Type 0) : Type 0 where
  array : List (Pod Num) → PodsBody Num
  namespaces : List (Text × List (Pod Num)) → PodsBody Num
  other : PodsBody Num

module _ {Num : Type 0} where
  unfoldable pub array_row : Pod Num → Row Num
  array_row pod = record {
    row_id = pod.id;
    row_name = or_text pod.app pod.id;
    row_image = pod.image;
    row_status = pod.status;
    uptime = codes "Live";
    row_project = pod.project;
    row_app = pod.app;
    row_cpu = pod.cpu_req;
    row_ram = pod.ram_req;
    row_dir = pod.dir;
  }

  unfoldable pub namespace_row : Text → Pod Num → Row Num
  namespace_row ns pod = record {
    row_id = pod.id;
    row_name = or_text pod.name (or_text pod.app pod.id);
    row_image = pod.image;
    row_status = pod.status;
    uptime = codes "Live";
    row_project = some (or_text pod.project ns);
    row_app = pod.app;
    row_cpu = pod.cpu_req;
    row_ram = pod.ram_req;
    row_dir = pod.dir;
  }

  unfoldable pub namespace_rows : List (Text × List (Pod Num)) → List (Row Num)
  namespace_rows [] = []
  namespace_rows ((ns, pods) ∷ rest) = map (namespace_row ns) pods ++ namespace_rows rest

  unfoldable pub rows_of : PodsBody Num → List (Row Num)
  rows_of (array pods) = map array_row pods
  rows_of (namespaces nss) = namespace_rows nss
  rows_of other = []

  -- `pod.project || pod.app || 'default'`
  unfoldable pub project_name : Row Num → Text
  project_name row = or_text row.row_project (or_text row.row_app (codes "default"))

-- A project while it is summed up.
pub record Sum (Num : Type 0) : Type 0 where
  pub sum_name : Text
  pub sum_dir : Text
  pub cpu : Num
  pub ram : Num
  pub pods_count : ℕ

-- A project as the page shows it; what a project of the dialog lacks or has besides is optional.
pub record Project : Type 0 where
  pub project_id : Text
  pub title : Text
  pub project_dir : Option Text
  pub cpu_quota : Text
  pub ram_quota : Text
  pub storage_quota : Option Text
  pub pods : Text

module _ (js : Platform) where
  open js use {Num, zero_num, add_num, positive, truthy_num, num_text, inherited}

  -- `n || 0`
  unfoldable pub or_zero : Option Num → Num
  or_zero none = zero_num
  or_zero (some n) = if truthy_num n then n else zero_num

  unfoldable pub new_sum : Text → Row Num → Sum Num
  new_sum name row = record {
    sum_name = name;
    sum_dir = or_text row.row_dir [];
    cpu = zero_num;
    ram = zero_num;
    pods_count = 0;
  }

  unfoldable pub add_pod : Sum Num → Row Num → Sum Num
  add_pod s row = record s {
    pods_count = s.pods_count + 1;
    cpu = add_num s.cpu (or_zero row.row_cpu);
    ram = add_num s.ram (or_zero row.row_ram);
  }

  -- `if (!projMap[pName]) projMap[pName] = …; projMap[pName].podsCount++; …`. Where every object
  -- inherits a value under the name, the sums go to that value and the map stays as it was.
  unfoldable pub count_into :
      Dict (Sum Num) → Text → Option (Sum Num) → Option Text → Row Num → Dict (Sum Num)
  count_into projects name (some s) proto row = put projects name (add_pod s row)
  count_into projects name none (some v) row = projects
  count_into projects name none none row = put projects name (add_pod (new_sum name row) row)

  unfoldable pub count_pod : Dict (Sum Num) → Row Num → Dict (Sum Num)
  unfolding count_into
  count_pod projects row =
      let name = project_name row in
      count_into projects name (get projects name) (inherited name) row

  unfoldable pub count_pods : Dict (Sum Num) → List (Row Num) → Dict (Sum Num)
  count_pods projects [] = projects
  count_pods projects (row ∷ rows) = count_pods (count_pod projects row) rows

  unfoldable pub quota : Num → Text → Text
  quota n one_unit = if positive n then num_text n ++ one_unit else codes "Auto"

  unfoldable pub project_of : (ℕ → Text) → Text × Sum Num → Project
  project_of show (name, s) = record {
    project_id = s.sum_name;
    title = s.sum_name;
    project_dir = some s.sum_dir;
    cpu_quota = quota s.cpu (codes " Cores");
    ram_quota = quota s.ram (codes " MB");
    storage_quota = none;
    pods = show s.pods_count;
  }

-- What a request of the polling ends in: a body, a response that is not `ok`, or an exception.
pub data Answer {ℓ} (A : Type ℓ) : Type ℓ where
  body : A → Answer A
  refused : Answer A
  offline : Answer A

pub record Stats : Type 0 where
  pub cpu_load : Text
  pub ram_used : Text
  pub ram_total : Text
  pub geo_ip_error : Option Text

pub record Cluster (Num : Type 0) : Type 0 where
  pub stats : Stats
  pub active_pods : ℕ
  pub rows : List (Row Num)
  pub projects : List Project

module _ (js : Platform) (show : ℕ → Text) where
  open js use {Num}

  unfoldable pub with_stats : Cluster Num → Answer Stats → Cluster Num
  with_stats c (body s) = record c { stats = s }
  with_stats c _ = c

  unfoldable pub with_pods : Cluster Num → Answer (PodsBody Num) → Cluster Num
  with_pods c (body b) = record c {
    rows = rows_of b;
    active_pods = length (rows_of b);
    projects = map (project_of js show) (count_pods js [] (rows_of b));
  }
  with_pods c _ = c

  -- `fetchData`: an exception ends the round.
  unfoldable pub refresh : Cluster Num → Answer Stats → Answer (PodsBody Num) → Cluster Num
  refresh c offline pods_answer = c
  refresh c stats_answer pods_answer = with_pods (with_stats c stats_answer) pods_answer
