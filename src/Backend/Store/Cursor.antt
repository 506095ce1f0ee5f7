-- ===== src/Backend/Store/Cursor.antt =====
-- `GetAllPods` and `GetAllBots` of backend/internal/cluster/fsm.go: the cursor that goes through the
-- keys with a prefix.
pub mod Scan
use p2ser.Base.{
  ◌≡◌, refl, arith, ◌++◌, ℕ, Bool, true, false, not, ◌&&◌, ◌||◌, List, [], ◌∷◌, ltb, ◌==◌,
  if◌then◌else◌, Option, none, some,
}
use p2ser.Dict.{Dict}
use p2ser.Text.{Text, codes, equal}
use p2ser.Backend.Store.Library.{Bolt, Gcm, before}
use p2ser.Backend.Store.{Fsm, decrypt}

-- `bytes.HasPrefix(k, prefix)`
unfoldable pub has_prefix : Text → Text → Bool
has_prefix [] k = true
has_prefix (x ∷ p) [] = false
has_prefix (x ∷ p) (y ∷ k) = x == y && has_prefix p k

pub has_prefix-append : (p s : Text) → has_prefix p (p ++ s) ≡ true
unfolding has_prefix
has_prefix-append [] s = refl
has_prefix-append (c ∷ p) s = ground (arith, has_prefix-append p s)

-- `bytes.TrimPrefix(k, prefix)`, of a key that has the prefix
unfoldable pub trim_prefix : Text → Text → Text
trim_prefix [] k = k
trim_prefix (x ∷ p) [] = []
trim_prefix (x ∷ p) (y ∷ k) = trim_prefix p k

module _ {ℓ} {V : Type ℓ} where
  -- `c.Seek(prefix)`: the entries from the first key on that is not before the prefix.
  unfoldable pub seek : Text → Dict V → Dict V
  seek prefix [] = []
  seek prefix ((k, v) ∷ es) = if before k prefix then seek prefix es else (k, v) ∷ es

  -- `for …; k != nil && bytes.HasPrefix(k, prefix); k, v = c.Next()`
  unfoldable pub while_prefix : Text → Dict V → Dict V
  while_prefix prefix [] = []
  while_prefix prefix ((k, v) ∷ es) =
      let rest = while_prefix prefix es in if has_prefix prefix k then (k, v) ∷ rest else []

module _ (gcm : Gcm) where
  unfoldable pub append_pod : Option Text → List Text → List Text
  append_pod none pods = pods
  append_pod (some text) pods = text ∷ pods

  unfoldable pub pods_of : Text → Dict Text → List Text
  unfolding append_pod
  pods_of secret [] = []
  pods_of secret ((k, sealed) ∷ es) = append_pod (decrypt gcm secret sealed) (pods_of secret es)

  unfoldable pub append_bot : Option Text → Text → List Text → List Text
  append_bot none bot bots = bots
  append_bot (some text) bot bots = if equal text (codes "true") then bot ∷ bots else bots

  unfoldable pub bots_of : Text → Dict Text → List Text
  unfolding append_bot
  bots_of secret [] = []
  bots_of secret ((k, sealed) ∷ es) =
      append_bot (decrypt gcm secret sealed) (trim_prefix (codes "bot:") k) (bots_of secret es)

module _ (lib : Bolt) (gcm : Gcm) where
  open lib use {Bucket}

  unfoldable pub get_all_pods : Fsm Bucket → List Text
  unfolding pods_of
  get_all_pods f =
      pods_of gcm f.secret_key
        (while_prefix (codes "pod:") (seek (codes "pod:") (lib.entries f.db)))

  unfoldable pub get_all_bots : Fsm Bucket → List Text
  unfolding bots_of
  get_all_bots f =
      bots_of gcm f.secret_key
        (while_prefix (codes "bot:") (seek (codes "bot:") (lib.entries f.db)))
