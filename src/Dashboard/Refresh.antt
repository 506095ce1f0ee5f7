-- ===== src/Dashboard/Refresh.antt =====
-- What a round of the polling keeps.
use p2ser.Base.{ℕ, ◌≡◌, refl, [], length, map}
use p2ser.Json.Platform.{Platform}
use p2ser.Text.{Text}
use p2ser.Dashboard.{
  Answer, body, refused, offline, Stats, PodsBody, Cluster, project_of, count_pods, with_stats,
  with_pods, refresh,
}

module _ (js : Platform) (show : ℕ → Text) where
  open js use {Num}

  -- The number of pods and the projects belong to the list of pods.
  abbrev pub IsConsistent : Cluster Num → Type 0
  IsConsistent c =
      (c.active_pods ≡ length c.rows)
      × (c.projects ≡ map (project_of js show) (count_pods js [] c.rows))

  with_stats-IsConsistent :
      (c : Cluster Num) (a : Answer Stats) → IsConsistent c → IsConsistent (with_stats js show c a)
  unfolding with_stats
  with_stats-IsConsistent c (body s) h = h
  with_stats-IsConsistent c refused h = h
  with_stats-IsConsistent c offline h = h

  with_pods-IsConsistent :
      (c : Cluster Num) (a : Answer (PodsBody Num))
      → IsConsistent c
      → IsConsistent (with_pods js show c a)
  unfolding with_pods
  with_pods-IsConsistent c (body b) h = (refl, refl)
  with_pods-IsConsistent c refused h = h
  with_pods-IsConsistent c offline h = h

  -- Whatever the two requests of a round end in, the number of active pods and the projects go on
  -- belonging to the list of pods that is shown.
  pub refresh-IsConsistent :
      (c : Cluster Num) (s : Answer Stats) (p : Answer (PodsBody Num))
      → IsConsistent c
      → IsConsistent (refresh js show c s p)
  unfolding refresh
  refresh-IsConsistent c offline p h = h
  refresh-IsConsistent c refused p h =
      with_pods-IsConsistent (with_stats js show c refused) p (with_stats-IsConsistent c refused h)
  refresh-IsConsistent c (body s) p h =
      with_pods-IsConsistent (with_stats js show c (body s)) p
        (with_stats-IsConsistent c (body s) h)
