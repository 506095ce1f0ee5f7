-- ===== src/Backend/Store.antt =====
-- backend/internal/cluster/fsm.go: the replicated state of the cluster, a bucket of encrypted values
-- to which Raft applies one command after the other.
pub mod Library
pub mod View
pub mod Snapshot
pub mod Cursor
pub mod Replicas
pub mod Locks
use p2ser.Base.{
  ℕ, zero, suc, ◌+◌, Bool, true, false, List, [], ◌∷◌, ◌++◌, ◌==◌, ltb, if◌then◌else◌, Option, none,
  some, length,
}
use p2ser.Dict.{Dict}
use p2ser.Json.{Json, num, obj, Fields, get_field}
use p2ser.Text.{Text, codes, equal}
use p2ser.Backend.Store.Library.{Bolt, Gcm, Encoding, take, drop}

-- What a command of the log asks for; any other `op` changes nothing.
pub data Op : Type 0 where
  set_op : Op
  del_op : Op
  cas_op : Op
  other_op : Op

pub record Command : Type 0 where
  pub op : Op
  pub key : Text
  pub value : Text
  pub expected_version : ℕ

-- What `Apply` returns.
pub data Outcome : Type 0 where
  applied : Outcome
  undecodable : Outcome
  cas_failed : ℕ → ℕ → Outcome
  no_nonce : Outcome
  bad_key : Outcome

-- A value, or `nil` behind an error that is dropped.
unfoldable pub or_nil : Option Text → Text
or_nil none = []
or_nil (some text) = text

module _ (gcm : Gcm) where
  open gcm use {nonce_size}

  -- `f.encrypt(data)`, with what the source of random bytes gives
  unfoldable pub encrypt : Text → Option Text → Text → Option Text
  encrypt secret none text = none
  encrypt secret (some nonce) text = some (nonce ++ gcm.seal secret nonce text)

  -- `f.decrypt(data)`: `none` is an error, and no bytes stand for `nil` as well.
  unfoldable pub decrypt : Text → Text → Option Text
  decrypt secret [] = some []
  decrypt secret (c ∷ s) =
      if ltb (length (c ∷ s)) nonce_size
      then none
      else gcm.unseal secret (take nonce_size (c ∷ s)) (drop nonce_size (c ∷ s))

  -- `val, _ = f.decrypt(b.Get(key))`
  unfoldable pub decrypt_found : Text → Option Text → Text
  unfolding decrypt or_nil
  decrypt_found secret none = []
  decrypt_found secret (some sealed) = or_nil (decrypt secret sealed)

module _ (json : Encoding) where
  open json use {Num}

  -- `parsed["resource_version"].(float64)`, where that is there
  unfoldable pub version_field : Option (Json Num) → ℕ
  version_field (some (num n)) = json.to_int n
  version_field _ = 0

  unfoldable pub version_of : Option (Json Num) → ℕ
  unfolding version_field
  version_of (some (obj fs)) = version_field (get_field fs (codes "resource_version"))
  version_of _ = 0

  -- The version that `cas` compares with.
  unfoldable pub stored_version : Text → ℕ
  unfolding version_of
  stored_version text = version_of (json.parse text)

-- `FSM`, over a bucket
pub record Fsm (Bucket : Type 0) : Type 0 where
  pub db : Bucket
  pub secret_key : Text

module _ (lib : Bolt) (gcm : Gcm) where
  open lib use {Bucket}

  -- `f.GetState(key)`
  unfoldable pub get_state : Fsm Bucket → Text → Text
  unfolding decrypt_found
  get_state f k = decrypt_found gcm f.secret_key (lib.get f.db k)

  -- `b.Put(key, encVal)`, behind `f.encrypt`
  unfoldable pub store_sealed : Fsm Bucket → Text → Option Text → Fsm Bucket × Outcome
  store_sealed f k none = (f, no_nonce)
  store_sealed f k (some sealed) =
      if lib.accepts k then (record f { db = lib.put f.db k sealed }, applied) else (f, bad_key)

  unfoldable pub store_value : Fsm Bucket → Option Text → Text → Text → Fsm Bucket × Outcome
  unfolding encrypt store_sealed
  store_value f nonce k text = store_sealed f k (encrypt gcm f.secret_key nonce text)

  module _ (json : Encoding) where
    -- The transaction of one command; an error rolls it back.
    unfoldable pub update : Fsm Bucket → Option Text → Op → Command → Fsm Bucket × Outcome
    unfolding store_value get_state stored_version
    update f random set_op c = store_value f random c.key c.value
    update f random del_op c = (record f { db = lib.delete f.db c.key }, applied)
    update f random cas_op c =
        let current = stored_version json (get_state f c.key) in
        if current == c.expected_version
        then store_value f random c.key c.value
        else (f, cas_failed c.expected_version current)
    update f random other_op c = (f, applied)

    -- `Apply`, on what the bytes of the log entry decode to.
    unfoldable pub apply : Fsm Bucket → Option Text → Option Command → Fsm Bucket × Outcome
    unfolding update
    apply f random none = (f, undecodable)
    apply f random (some c) = update f random c.op c
