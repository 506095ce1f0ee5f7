-- ===== src/Backend/Scheduler/Claim/Progress.antt =====
-- A pod that can be taken is taken.
use mathlib.Core.Path.{subst}
use p2ser.Base.{
  Any, Any-All, All, First, ◌≡◌, ℕ, ◌+◌, ◌<◌, true, List, [], ◌∷◌, ◌++◌, Option, none, some, length,
  map,
}
use p2ser.Text.{Text}
use p2ser.Backend.Pod.{Pod}
use p2ser.Backend.Scheduler.Claim.Eligible.{IsFree, first_eligible-First}
use p2ser.Backend.Scheduler.Claim.Race.{ReadsVersions, Claimant, claims_first_wins, claims}
use p2ser.Backend.Scheduler.Claim.{claim, first_eligible}
use p2ser.Backend.Scheduler.{Engine, Node, locked, pod_key}
use p2ser.Backend.Store.Library.{Bolt, Gcm, Encoding}
use p2ser.Backend.Store.Replicas.{run}
use p2ser.Backend.Store.{Fsm, get_state, stored_version}

-- The pod of the list is the one in the store, and its version is one that `float64` holds.
abbrev pub IsCurrent :
    (engine : Engine) (lib : Bolt) → Gcm → Encoding → Fsm lib.Bucket → Pod engine.Float → Type 0
IsCurrent engine lib gcm json f p =
    (stored_version json (get_state lib gcm f (pod_key p.id)) ≡ p.resource_version)
    × (lib.accepts (pod_key p.id) ≡ true)
    × (p.resource_version + 1 < 0x20000000000000)

All-middle {ℓ κ} :
    {A : Type ℓ} (P : A → Type κ) (xs : List A) (y : A) (ys : List A) → All P (xs ++ y ∷ ys) → P y
All-middle P [] y ys (p, h) = p
All-middle P (x ∷ xs) y ys (p, h) = All-middle P xs y ys h

module _ (engine : Engine) (lib : Bolt) (gcm : Gcm) (json : Encoding) where
  claimed :
      (f : Fsm lib.Bucket) (node : Node) (now expires : ℕ) (nonce : Text)
      (pods : List (Pod engine.Float)) (o : Option (Pod engine.Float))
      → ReadsVersions engine json
      → length nonce ≡ gcm.nonce_size
      → All (IsCurrent engine lib gcm json f) pods
      → Any (IsFree engine node now pods) pods
      → First (IsFree engine node now pods) pods o
      → (p : Pod engine.Float) × IsFree engine node now pods p
        × (get_state lib gcm
              (run lib gcm json f (map (λ c. (nonce, some c)) (claim engine node expires o))).0
              (pod_key p.id)
            ≡ engine.marshal (locked engine node expires p))
  unfolding claim claims
  claimed f node now expires nonce pods none reads n current free first =
      absurd (Any-All (IsFree engine node now pods) pods free first)
  claimed f node now expires nonce pods (some p) reads n current free first =
      let (passed, later, e, _, is_free) = first in
      let (version, accepts, small) =
        All-middle (IsCurrent engine lib gcm json f) passed p later
          (subst (All (IsCurrent engine lib gcm json f)) e current) in
      let c : Claimant = record { node = node; expires = expires; nonce = nonce } in
      let (_, value) =
        claims_first_wins engine lib gcm json f p c [] reads n accepts version small in
      (p, is_free, value)

  -- When some pod of the list is free and the pods of the list are the stored ones, the commit of
  -- what the round asks for gives the node such a pod: it is stored with the name of the node and
  -- its lease. The versions are below 2^53 and are read back as they were written, the store
  -- accepts the keys, and the nonce has its size.
  pub claim_progress :
      (f : Fsm lib.Bucket) (node : Node) (now expires : ℕ) (nonce : Text)
      (pods : List (Pod engine.Float))
      → ReadsVersions engine json
      → length nonce ≡ gcm.nonce_size
      → All (IsCurrent engine lib gcm json f) pods
      → Any (IsFree engine node now pods) pods
      → (p : Pod engine.Float) × IsFree engine node now pods p
        × (get_state lib gcm
              (run lib gcm json f (
                map
                  (λ c. (nonce, some c))
                  (claim engine node expires (first_eligible engine node now pods pods)))).0
              (pod_key p.id)
            ≡ engine.marshal (locked engine node expires p))
  claim_progress f node now expires nonce pods reads n current free =
      claimed f node now expires nonce pods (first_eligible engine node now pods pods) reads n
        current free (first_eligible-First engine node now pods pods)
