-- ===== src/Dashboard/View.antt =====
-- What the tabs `Dashboard` and `Projects` of `App` write: the texts that come from the state.
pub mod Badges
use p2ser.Base.{ℕ, Bool, true, false, List, [], ◌∷◌, ◌++◌, Option, none, some, if◌then◌else◌, map}
use p2ser.Text.{Text, codes, equal, truthy_text}
use p2ser.Dashboard.{Row, Project, Stats, Cluster}

-- An item of `stats`
pub record StatCard : Type 0 where
  pub card_title : Text
  pub card_value : Text
  pub card_trend : Text
  pub card_status : Text

unfoldable pub stat_cards : (ℕ → Text) → Stats → ℕ → List StatCard
stat_cards show s active =
    record {
      card_title = codes "Host CPU Load";
      card_value = s.cpu_load;
      card_trend = codes "Current";
      card_status = codes "Normal";
    }
    ∷ record {
      card_title = codes "Host RAM Used";
      card_value = s.ram_used;
      card_trend = codes "of " ++ s.ram_total;
      card_status = codes "Normal";
    }
    ∷ record {
      card_title = codes "Active Pods";
      card_value = show active;
      card_trend = codes "Containers";
      card_status = codes "Running";
    }
    ∷ []

-- `{text && …}`
unfoldable pub given_text : Option Text → Option Text
given_text none = none
given_text (some s) = if truthy_text s then some s else none

-- The text of the warning of the sanctions filter, where there is an error
unfoldable pub geo_warning : Stats → Option Text
unfolding given_text
geo_warning s = given_text s.geo_ip_error

-- The texts of a pod
pub record PodItem : Type 0 where
  pub item_name : Text
  pub item_image : Text
  pub item_uptime : Text
  pub item_class : Text
  pub item_badge : Text

unfoldable pub badge : Text → Text
badge status = if equal status (codes "running") then codes "Running" else codes "Pending"

module _ {Num : Type 0} where
  unfoldable pub pod_item : Row Num → PodItem
  unfolding badge
  pod_item row = record {
    item_name = row.row_name;
    item_image = row.row_image ++ codes " • " ++ row.row_id;
    item_uptime = codes "Uptime: " ++ row.uptime;
    item_class = codes "status-badge status-" ++ row.row_status;
    item_badge = badge row.row_status;
  }

  unfoldable pub pod_items : Cluster Num → List PodItem
  unfolding pod_item
  pod_items c = map pod_item c.rows

-- The texts of the card of a project
pub record ProjectCard : Type 0 where
  pub shown_title : Text
  pub shown_dir : Option Text
  pub shown_cpu : Text
  pub shown_ram : Text
  pub shown_storage : Option Text
  pub shown_pods : Text

unfoldable pub project_card : Project → ProjectCard
unfolding given_text
project_card p = record {
  shown_title = p.title;
  shown_dir = given_text p.project_dir;
  shown_cpu = p.cpu_quota;
  shown_ram = p.ram_quota;
  shown_storage = given_text p.storage_quota;
  shown_pods = p.pods;
}
