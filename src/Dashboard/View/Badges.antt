-- ===== src/Dashboard/View/Badges.antt =====
-- The pods of the server on the page.
use p2ser.Base.{◌≡◌, ◌⊎◌, refl, inl, inr, List, [], ◌∷◌, All, none, some, map, ℕ}
use p2ser.Json.Platform.{Platform}
use p2ser.Text.{Text, codes, equal}
use p2ser.Dashboard.{Row, array, body, array_row, rows_of, Stats, Cluster, with_pods, Answer}
use p2ser.Dashboard as Page
use p2ser.Dashboard.View.{PodItem, badge, pod_item, pod_items}
use p2ser.Backend.Pod as Server

-- What the page gets of a pod of the server, whose record has an id, an image, a status, an app, a
-- project and two numbers under the names that the page reads, and no directory.
abbrev pub received :
    {Float Num : Type 0} → (Float → Num) → (ℕ → Num) → Server.Pod Float → Page.Pod Num
received of_float of_int p = record {
  id = p.id;
  name = none;
  app = some p.app;
  project = some p.project;
  image = p.image;
  status = p.status;
  dir = none;
  cpu_req = some (of_float p.cpu_req);
  ram_req = some (of_int p.ram_req);
}

-- A status that the server gives to pods
abbrev pub IsServerStatus : Text → Type 0
IsServerStatus s =
    (s ≡ codes "Pending") ⊎ (s ≡ codes "Scheduled") ⊎ (s ≡ codes "Running") ⊎ (s ≡ codes "Fenced")

badge-Pending : (s : Text) → IsServerStatus s → badge s ≡ codes "Pending"
unfolding badge equal
badge-Pending s (inl e) = rw e refl
badge-Pending s (inr (inl e)) = rw e refl
badge-Pending s (inr (inr (inl e))) = rw e refl
badge-Pending s (inr (inr (inr e))) = rw e refl

module _ (js : Platform) (show : ℕ → Text) {Float : Type 0} (of_float : Float → js.Num)
    (of_int : ℕ → js.Num) where
  -- The pods of the page after the server has sent an array of its pods.
  abbrev pub shown : Cluster js.Num → List (Server.Pod Float) → List PodItem
  shown c ps = pod_items (with_pods js show c (body (array (map (received of_float of_int) ps))))

  items-Pending :
      (ps : List (Server.Pod Float))
      → All (λ (p : Server.Pod Float). IsServerStatus p.status) ps
      → All
          (λ (i : PodItem). i.item_badge ≡ codes "Pending")
          (map pod_item (map array_row (map (received of_float of_int) ps)))
  unfolding pod_item array_row
  items-Pending [] h = tt
  items-Pending (p ∷ ps) (s, h) = (badge-Pending p.status s, items-Pending ps h)

  -- Whatever pods the server sends, each with a status that it gives to pods, the page writes
  -- `Pending` behind every one, those that run included.
  pub pod_items-Pending :
      (c : Cluster js.Num) (ps : List (Server.Pod Float))
      → All (λ (p : Server.Pod Float). IsServerStatus p.status) ps
      → All (λ (i : PodItem). i.item_badge ≡ codes "Pending") (shown c ps)
  unfolding pod_items with_pods rows_of
  pod_items-Pending c ps h = items-Pending ps h
