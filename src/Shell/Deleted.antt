-- ===== src/Shell/Deleted.antt =====
-- The button `Delete` of a project against the next round of the polling.
use p2ser.Base.{ℕ, ◌≡◌, refl, ◌≢◌, List, [], ◌∷◌, ◌++◌, false, Bool-cases, inl, inr, All}
use p2ser.Dashboard.{
  Answer, body, refused, offline, Stats, PodsBody, Cluster, Project, with_stats, with_pods, refresh,
}
use p2ser.Json.Platform.{Platform}
use p2ser.Shell.{delete_project}
use p2ser.Text.{Text, equal}

-- No project with the id of the deleted one is left.
delete_project-All :
    (id : Text) (ps : List Project)
    → All (λ (p : Project). equal p.project_id id ≡ false) (delete_project id ps)
unfolding delete_project
delete_project-All id [] = tt
delete_project-All id (p ∷ ps) = elim (Bool-cases (equal p.project_id id)) [
  | inl e ↦ rw e (delete_project-All id ps)
  | inr e ↦ rw e (e, delete_project-All id ps)
]

-- Once the polling gets the pods, the list of projects is as if nothing had been deleted, and
-- nothing added by the dialog: neither is sent to the cluster as such.
pub refresh-delete_project :
    (js : Platform) (show : ℕ → Text) (c : Cluster js.Num) (id : Text) (added : List Project)
    (s : Answer Stats) (b : PodsBody js.Num)
    → s ≢ offline
    → refresh js show (record c { projects = delete_project id (c.projects ++ added) }) s (body b)
      ≡ refresh js show c s (body b)
unfolding refresh with_stats with_pods
refresh-delete_project js show c id added (body s) b h = refl
refresh-delete_project js show c id added refused b h = refl
refresh-delete_project js show c id added offline b h = absurd (h refl)
