-- ===== src/Backend/Store/Library.antt =====
-- What backend/internal/cluster/fsm.go uses of bbolt, of AES-GCM and of `encoding/json`.
use p2ser.Base.{
  ◌≡◌, ℕ, zero, suc, ◌<◌, Bool, true, false, [], ◌∷◌, if◌then◌else◌, Option, none, some, length,
  All, ltb, ◌==◌, ◌&&◌, ◌||◌,
}
use p2ser.Dict.{Dict, get as dict_get}
use p2ser.Json.{Json}
use p2ser.Text.{Text, equal}

-- The order of the bytes of two keys: `bytes.Compare(a, b) < 0`.
unfoldable pub before : Text → Text → Bool
before a [] = false
before [] (y ∷ b) = true
before (x ∷ a) (y ∷ b) = ltb x y || x == y && before a b

-- The keys stand in strictly ascending order.
abbrev pub Ascending {ℓ} : {V : Type ℓ} → Dict V → Type ℓ
Ascending [] = Unit
Ascending ((k, v) ∷ es) = All (λ e. before k e.0 ≡ true) es × Ascending es

-- A bucket of bbolt: a map from keys to values, whose cursor goes through it in the order of the
-- bytes of the keys. `Put` refuses an empty key and one that
-- is too long; values of 2 GB, which it refuses too, do not come through the limits of the server.
pub record Bolt : Type 1 where
  pub Bucket : Type 0
  pub empty : Bucket
  pub get : Bucket → Text → Option Text
  pub put : Bucket → Text → Text → Bucket
  pub delete : Bucket → Text → Bucket
  pub accepts : Text → Bool
  pub entries : Bucket → Dict Text
  pub get-empty : (k : Text) → get empty k ≡ none
  pub get-put :
      (b : Bucket) (k j v : Text) → get (put b k v) j ≡ (if equal k j then some v else get b j)
  pub get-delete :
      (b : Bucket) (k j : Text) → get (delete b k) j ≡ (if equal k j then none else get b j)
  pub get-entries : (b : Bucket) (k : Text) → dict_get (entries b) k ≡ get b k
  pub entries-Ascending : (b : Bucket) → Ascending (entries b)

-- `Seal` and `Open` of AES-GCM under a key, and the number of bytes of a nonce.
pub record Gcm : Type 0 where
  pub nonce_size : ℕ
  pub nonce_pos : zero < nonce_size
  pub seal : Text → Text → Text → Text
  pub unseal : Text → Text → Text → Option Text
  pub unseal-seal :
      (key nonce text : Text)
      → length nonce ≡ nonce_size
      → unseal key nonce (seal key nonce text) ≡ some text

-- `json.Unmarshal` into an `interface{}`, the numbers of which are floating-point, and `int(n)` as
-- a word of 64 bits.
pub record Encoding : Type 1 where
  pub Num : Type 0
  pub parse : Text → Option (Json Num)
  pub to_int : Num → ℕ

abbrev pub take : ℕ → Text → Text
take zero s = []
take (suc n) [] = []
take (suc n) (c ∷ s) = c ∷ take n s

abbrev pub drop : ℕ → Text → Text
drop zero s = s
drop (suc n) [] = []
drop (suc n) (c ∷ s) = drop n s
