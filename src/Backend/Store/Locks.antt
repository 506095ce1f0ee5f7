-- ===== src/Backend/Store/Locks.antt =====
-- Several nodes that ask for one lock by a `cas` with one expected version.
use p2ser.Base.{
  ◌≡◌, ◌≢◌, refl, ap, ◌∙◌, arith, ℕ, true, false, List, [], ◌∷◌, ◌==◌, Option, none, some, length,
  map, All, ==_iff,
}
use p2ser.Text.{Text}
use p2ser.Text.Equality.{equal_refl}
use p2ser.Backend.Store.Library.{Bolt, Gcm, Encoding}
use p2ser.Backend.Store.{
  cas_op, Command, applied, cas_failed, Fsm, or_nil, get_state, stored_version, apply, update,
  store_value,
}
use p2ser.Backend.Store.Replicas.{run}
use p2ser.Backend.Store.View.{View, store_value_accepted, get_state-view}

eq_false : (a b : ℕ) → a ≢ b → (a == b) ≡ false
eq_false a b h = ground arith

-- A `cas` on `k` that expects version `v`.
abbrev pub Asks : Text → ℕ → Option Command → Type 0
Asks k v none = ⊥
Asks k v (some c) = (c.op ≡ cas_op) × (c.key ≡ k) × (c.expected_version ≡ v)

module _ (lib : Bolt) (gcm : Gcm) (json : Encoding) where
  open lib use {Bucket}

  pub taken :
      (f : Fsm Bucket) (nonce k : Text) (v : ℕ) (c : Option Command)
      → Asks k v c
      → stored_version json (get_state lib gcm f k) ≢ v
      → apply lib gcm json f (some nonce) c
        ≡ (f, cas_failed v (stored_version json (get_state lib gcm f k)))
  unfolding apply update
  taken f nonce k v none h n = absurd h
  taken f nonce k v (some c) (op, key, expected) n = rw (op, key, expected, eq_false _ _ n) refl

  pub others_taken :
      (f : Fsm Bucket) (k : Text) (v : ℕ) (log : List (Text × Option Command))
      → All (λ (e : Text × Option Command). Asks k v e.1) log
      → stored_version json (get_state lib gcm f k) ≢ v
      → run lib gcm json f log ≡ (
        f,
        map
            (λ (e : Text × Option Command).
              cas_failed v (stored_version json (get_state lib gcm f k)))
            log,
      )
  unfolding run
  others_taken f k v [] h n = refl
  others_taken f k v ((nonce, c) ∷ log) (a, h) n =
      rw (taken f nonce k v c a n, others_taken f k v log h n) refl

  pub granted :
      (f : Fsm Bucket) (nonce k : Text) (v : ℕ) (c : Command)
      → Asks k v (some c)
      → stored_version json (get_state lib gcm f k) ≡ v
      → apply lib gcm json f (some nonce) (some c) ≡ store_value lib gcm f (some nonce) k c.value
  unfolding apply update
  granted f nonce k v c (op, key, expected) e = rw (op, key, expected, (==_iff _ _).1 e) refl

  pub stored :
      (f : Fsm Bucket) (nonce k text : Text)
      → length nonce ≡ gcm.nonce_size
      → lib.accepts k ≡ true
      → ((store_value lib gcm f (some nonce) k text).1 ≡ applied)
        × (get_state lib gcm (store_value lib gcm f (some nonce) k text).0 k ≡ text)
  unfolding or_nil
  stored f nonce k text h a =
      let (result, after) = store_value_accepted lib gcm f nonce k text h a in
      (
        result,
        get_state-view lib gcm (store_value lib gcm f (some nonce) k text).0 k
            ∙ ap (λ (w : View). or_nil (w k)) after
            ∙ rw (equal_refl k) refl,
      )

  -- Of several `cas` commands on one key that all expect the version that is stored, the first in
  -- the log is applied and all others fail, if the value that it writes has another version: its
  -- value is the one that stays.
  pub run_first_wins :
      (f : Fsm Bucket) (nonce k : Text) (v : ℕ) (c : Command) (log : List (Text × Option Command))
      → length nonce ≡ gcm.nonce_size
      → lib.accepts k ≡ true
      → Asks k v (some c)
      → All (λ (e : Text × Option Command). Asks k v e.1) log
      → stored_version json (get_state lib gcm f k) ≡ v
      → stored_version json c.value ≢ v
      → ((run lib gcm json f ((nonce, some c) ∷ log)).1
          ≡ applied ∷ map (λ _. cas_failed v (stored_version json c.value)) log)
        × (get_state lib gcm (run lib gcm json f ((nonce, some c) ∷ log)).0 k ≡ c.value)
  unfolding run
  run_first_wins f nonce k v c log h a asks others e n =
      let (result, value) = stored f nonce k c.value h a in
      rw
        (
          granted f nonce k v c asks e,
          others_taken (store_value lib gcm f (some nonce) k c.value).0 k v log others (rw value n),
          value,
          result,
        )
        (refl, refl)
