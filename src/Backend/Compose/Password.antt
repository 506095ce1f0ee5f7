-- ===== src/Backend/Compose/Password.antt =====
-- A database is never started without a password.
use p2ser.Base.{
  ◌≡◌, refl, arith, inl, inr, Bool-cases, ◌≤◌, ◌<◌, ◌==◌, true, List, [], ◌∷◌, ◌++◌, if◌then◌else◌,
  some, length, All, All-append, First, First-passed, not_both,
}
use p2ser.Json.{index_key}
use p2ser.Text.{Text, codes, truthy_text}
use p2ser.Backend.Pod.{Pod}
use p2ser.Backend.Store.Cursor.{has_prefix, has_prefix-append}
use p2ser.Backend.Compose.{
  pods_from, Service, Request, password_key, with_password, contains, secured_env, active_pod,
  standby_pod, service_pods, new_pod, env_of, replicas_of,
}
use p2ser.Backend.Compose.Replicas.{All-pods_from}

-- The first entry for the password holds more than its name.
abbrev pub HasPassword : List Text → Type 0
HasPassword env =
    (e : Text) × First (λ s. has_prefix password_key s ≡ true) env (some e) × (18 < length e)

new_entry : (password : Text) → 0 < length password → 18 < length (password_key ++ password)
new_entry password h = omega arith

length-has_prefix : (p k : Text) → has_prefix p k ≡ true → length p ≤ length k
unfolding has_prefix
length-has_prefix [] k h = omega arith
length-has_prefix (c ∷ p) [] h = absurd (ground arith)
length-has_prefix (c ∷ p) (d ∷ k) h = ground (arith, length-has_prefix p k)

HasPassword-here :
    (e : Text) (es : List Text)
    → has_prefix password_key e ≡ true
    → 18 < length e
    → HasPassword (e ∷ es)
HasPassword-here e es p l = (e, ([], es, refl, tt, p), l)

with_password-HasPassword :
    (password : Text) (env : List Text)
    → 0 < length password
    → HasPassword (with_password password env)
unfolding with_password
with_password-HasPassword password [] h =
    HasPassword-here (password_key ++ password) [] (has_prefix-append password_key password)
      (new_entry password h)
with_password-HasPassword password (e ∷ es) h = elim (Bool-cases (has_prefix password_key e)) [
  | inl p ↦ elim (Bool-cases (length e == 18)) [
    | inl empty ↦
        rw (p, empty)
          (HasPassword-here (password_key ++ password) es (has_prefix-append password_key password)
            (new_entry password h))
    | inr filled ↦
        let long = length-has_prefix password_key e p in
        rw (p, filled) (HasPassword-here e es p (ground arith))
  ]
  | inr p ↦
      let (x, found, l) = with_password-HasPassword password es h in
      rw p (
        x,
        First-passed (λ s. has_prefix password_key s ≡ true) e (with_password password es) (some x)
            (λ t. not_both _ t p) found,
        l,
      )
]

module _ {Float Num : Type 0} (zero_float : Float) (r : Request) where
  secured :
      (name : Text) (svc : Service Num) (id role user : Text)
      → contains (codes "postgres") svc.image ≡ true
      → 0 < length (r.password name)
      → HasPassword (new_pod zero_float r name svc id role user).env
  unfolding new_pod secured_env
  secured name svc id role user e h =
      rw e (with_password-HasPassword (r.password name) (env_of r.env_map svc.environment) h)

  -- Each pod of a service with a PostgreSQL image, active or standby, gets an environment whose
  -- first `POSTGRES_PASSWORD` is not empty, whether the file sets none, an empty one or one that is
  -- kept, provided that generated passwords are not empty.
  pub service_pods-HasPassword :
      (name : Text) (svc : Service Num)
      → contains (codes "postgres") svc.image ≡ true
      → 0 < length (r.password name)
      → All (λ p. HasPassword p.env) (service_pods zero_float r name svc)
  unfolding service_pods active_pod standby_pod
  service_pods-HasPassword name svc e h =
      let P = λ (p : Pod Float). HasPassword p.env in
      let active = active_pod zero_float r name svc in
      let standby = standby_pod zero_float r name svc in
      All-append P (pods_from active 0 (replicas_of svc.deploy))
        (pods_from standby 0 svc.x_k1n_standby)
        (All-pods_from P active 0 (replicas_of svc.deploy) (λ j.
          secured name svc (name ++ codes "-active-" ++ index_key j) (codes "Active")
            (if truthy_text svc.user then svc.user else codes "1000:1000") e h))
        (All-pods_from P standby 0 svc.x_k1n_standby (λ j.
          secured name svc (name ++ codes "-standby-" ++ index_key j) (codes "Standby") svc.user e
            h))
