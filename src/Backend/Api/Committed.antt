-- ===== src/Backend/Api/Committed.antt =====
-- What a client of the API learns of a command.
use p2ser.Base.{◌≡◌, ◌≢◌, refl, ap, ℕ, true, some}
use p2ser.Text.{Text, codes, equal}
use p2ser.Backend.Api.{committed, status, handle_apply}
use p2ser.Backend.Store.Library.{Bolt, Gcm, Encoding}
use p2ser.Backend.Store.Locks.{Asks, taken}
use p2ser.Backend.Store.{Command, cas_failed, Fsm, get_state, stored_version, apply}

module _ (lib : Bolt) (gcm : Gcm) (json : Encoding) where
  -- A `cas` on the leader that expects another version than the stored one leaves the store as it
  -- is and ends in an error, and its client is answered with status 200.
  pub handle_apply-taken :
      (f : Fsm lib.Bucket) (nonce leader k : Text) (v : ℕ) (c : Command)
      → Asks k v (some c)
      → stored_version json (get_state lib gcm f k) ≢ v
      → ((apply lib gcm json f (some nonce) (some c)).0 ≡ f)
        × ((apply lib gcm json f (some nonce) (some c)).1
            ≡ cas_failed v (stored_version json (get_state lib gcm f k)))
        × (handle_apply
              (codes "POST")
              true
              leader
              true
              (committed (apply lib gcm json f (some nonce) (some c)).1)
            ≡ status 200)
  unfolding handle_apply equal
  handle_apply-taken f nonce leader k v c asks other =
      let e = taken lib gcm json f nonce k v (some c) asks other in
      (ap (λ r. r.0) e, ap (λ r. r.1) e, refl)
