-- ===== src/Backend/Api/Pods/Named.antt =====
-- Pods of the compose file whose logs and terminal are out of reach.
use p2ser.Base.{
  ◌≡◌, ◌∙◌, append_assoc, ℕ, refl, sym, arith, true, false, [], ◌∷◌, ◌++◌, Option, All, All-append,
}
use mathlib.Core.Path.{subst}
use p2ser.Dict.{Dict}
use p2ser.Json.{index_key}
use p2ser.Text.{Text, codes, equal}
use p2ser.Backend.Pod.{Pod}
use p2ser.Backend.Store.Library.{Bolt, Gcm}
use p2ser.Backend.Store.{Fsm}
use p2ser.Backend.Compose.{
  Service, Request, pods_from, replicas_of, active_pod, standby_pod, service_pods, new_pod,
}
use p2ser.Backend.Compose.Replicas.{All-pods_from}
use p2ser.Backend.Api.Pods.{
  pod_units, valid_pod_id, FileRead, failed, handle_get_logs, refused, handle_exec_pod,
}

pod_units-append : (s t : Text) → pod_units s ≡ false → pod_units (s ++ t) ≡ false
unfolding pod_units
pod_units-append [] t h = absurd (ground (arith, h))
pod_units-append (c ∷ s) t h = ground (arith, h, pod_units-append s t)

valid_pod_id-units : (s : Text) → pod_units s ≡ false → valid_pod_id s ≡ false
unfolding valid_pod_id pod_units
valid_pod_id-units [] h = refl
valid_pod_id-units (c ∷ s) h = ground (arith, h)

module _ {Float Num : Type 0} (zero_float : Float) (r : Request) where
  active_pod_id :
      (name : Text) (svc : Service Num) (j : ℕ)
      → (active_pod zero_float r name svc j).id ≡ name ++ codes "-active-" ++ index_key j
  unfolding active_pod new_pod
  active_pod_id name svc j = refl

  standby_pod_id :
      (name : Text) (svc : Service Num) (j : ℕ)
      → (standby_pod zero_float r name svc j).id ≡ name ++ codes "-standby-" ++ index_key j
  unfolding standby_pod new_pod
  standby_pod_id name svc j = refl

  service_pods-named :
      (P : Text → Type 0) (name : Text) (svc : Service Num)
      → ((rest : Text) → P (name ++ rest))
      → All (λ p. P p.id) (service_pods zero_float r name svc)
  unfolding service_pods
  service_pods-named P name svc h =
      let Q = λ (p : Pod Float). P p.id in
      let active = active_pod zero_float r name svc in
      let standby = standby_pod zero_float r name svc in
      All-append Q (pods_from active 0 (replicas_of svc.deploy))
        (pods_from standby 0 svc.x_k1n_standby)
        (All-pods_from Q active 0 (replicas_of svc.deploy) (λ j.
          subst P
            (sym (active_pod_id name svc j ∙ append_assoc name (codes "-active-") (index_key j)))
            (h (codes "-active-" ++ index_key j))))
        (All-pods_from Q standby 0 svc.x_k1n_standby (λ j.
          subst P
            (sym (standby_pod_id name svc j ∙ append_assoc name (codes "-standby-") (index_key j)))
            (h (codes "-standby-" ++ index_key j))))

module _ (lib : Bolt) (gcm : Gcm) (node_of : Text → Text) (f : Fsm lib.Bucket) (local : Text)
    (servers : Option (Dict Text)) (origin host : Text) (files : Text → FileRead) where
  -- The logs and the terminal of a pod are refused.
  abbrev pub IsRefused : Text → Type 0
  IsRefused id =
      (handle_get_logs (codes "GET") id files ≡ failed 400)
      × (handle_exec_pod lib gcm node_of f local servers id origin host true ≡ refused 400)

  invalid-IsRefused : (id : Text) → valid_pod_id id ≡ false → IsRefused id
  unfolding handle_get_logs handle_exec_pod equal
  invalid-IsRefused [] h = (refl, refl)
  invalid-IsRefused (c ∷ id) h = (rw h refl, rw h refl)

  -- Where the name of a service holds a character other than a-z, 0-9 and -, such as an underscore
  -- or a capital, which Compose allows, the logs and the terminal of each of its pods are refused
  -- with status 400, whatever the store and the files hold.
  pub service_pods-IsRefused :
      {Float Num : Type 0} (zero_float : Float) (r : Request) (name : Text) (svc : Service Num)
      → pod_units name ≡ false
      → All (λ p. IsRefused p.id) (service_pods zero_float r name svc)
  service_pods-IsRefused zero_float r name svc h =
      service_pods-named zero_float r IsRefused name svc (λ rest.
        invalid-IsRefused (name ++ rest)
          (valid_pod_id-units (name ++ rest) (pod_units-append name rest h)))
