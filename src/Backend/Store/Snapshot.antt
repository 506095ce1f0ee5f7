-- ===== src/Backend/Store/Snapshot.antt =====
-- `Snapshot` and `Restore` of backend/internal/cluster/fsm.go.
pub mod RoundTrip
use p2ser.Base.{ℕ, suc, Bool, true, false, List, [], ◌∷◌, Option, none, some}
use p2ser.Dict.{Dict, put}
use p2ser.Text.{Text}
use p2ser.Backend.Store.Library.{Bolt, Gcm}
use p2ser.Backend.Store.{Outcome, applied, Fsm, decrypt, store_value}

-- `if err == nil { clone[string(k)] = string(decV) }`
unfoldable pub clone_value : Dict Text → Text → Option Text → Dict Text
clone_value clone k none = clone
clone_value clone k (some text) = put clone k text

module _ (gcm : Gcm) where
  unfoldable pub clone_entries : Text → Dict Text → Dict Text → Dict Text
  unfolding clone_value
  clone_entries secret clone [] = clone
  clone_entries secret clone ((k, sealed) ∷ es) =
      clone_entries secret (clone_value clone k (decrypt gcm secret sealed)) es

module _ (lib : Bolt) (gcm : Gcm) where
  open lib use {Bucket}

  unfoldable pub snapshot : Fsm Bucket → Dict Text
  snapshot f = clone_entries gcm f.secret_key [] (lib.entries f.db)

  -- `if err := …; err != nil { return err }`
  unfoldable pub go_on :
      Fsm Bucket × Outcome → (Fsm Bucket → Option (Fsm Bucket)) → Option (Fsm Bucket)
  go_on (g, applied) rest = rest g
  go_on (g, _) rest = none

  -- The loop of `Restore`, in the order in which `range` goes through the map; the nonces are what
  -- the source of random bytes gives from the `i`-th on.
  unfoldable pub restore_from : Fsm Bucket → (ℕ → Option Text) → ℕ → Dict Text → Option (Fsm Bucket)
  restore_from f nonces i [] = some f
  restore_from f nonces i ((k, text) ∷ m) =
      go_on (store_value lib gcm f (nonces i) k text) (λ g. restore_from g nonces (suc i) m)

  -- An error rolls the transaction back.
  unfoldable pub committed : Fsm Bucket → Option (Fsm Bucket) → Fsm Bucket × Bool
  committed f none = (f, false)
  committed f (some g) = (g, true)

  -- `Restore`, on what the stream decodes to, and whether it returns no error.
  unfoldable pub restore : Fsm Bucket → (ℕ → Option Text) → Option (Dict Text) → Fsm Bucket × Bool
  unfolding restore_from committed
  restore f nonces none = (f, false)
  restore f nonces (some m) = committed f (restore_from (record f { db = lib.empty }) nonces 0 m)
