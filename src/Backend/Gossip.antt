-- ===== src/Backend/Gossip.antt =====
-- `MyDelegate.NotifyMsg` of backend/internal/network/delegate.go with `UpdateNodeMetrics` and
-- `GetNodeMetrics` of network.go: what a node knows of the load of the others.
pub mod Latest
pub mod Converges
use p2ser.Base.{◌≤◌, ℕ, Bool, true, false, List, [], ◌∷◌, leb, if◌then◌else◌, Option, none, some}
use p2ser.Dict.{Dict, get, put}
use p2ser.Text.{Text}

module _ (Float : Type 0) where
  -- `NodeMetrics`; a version that is not positive is 0.
  pub record Metrics : Type 0 where
    pub node : Text
    pub version : ℕ
    pub cpu_usage : Float
    pub ram_free : ℕ
    pub ram_total : ℕ

  -- The maps `nodeVersions` and `nodeMetrics`
  pub record Known : Type 0 where
    pub versions : Dict ℕ
    pub metrics : Dict Metrics

  abbrev pub nothing_known : Known
  nothing_known = record { versions = []; metrics = [] }

-- What a map of Go gives for a key that it may lack.
unfoldable pub version_or_zero : Option ℕ → ℕ
version_or_zero none = 0
version_or_zero (some n) = n

module _ {Float : Type 0} where
  -- `NotifyMsg`, on what the message decodes to
  unfoldable pub notify_msg : Known Float → Option (Metrics Float) → Known Float
  unfolding version_or_zero
  notify_msg k none = k
  notify_msg k (some m) =
      if leb m.version (version_or_zero (get k.versions m.node))
      then k
      else record { versions = put k.versions m.node m.version; metrics = put k.metrics m.node m }

  -- Messages one after the other
  unfoldable pub notify_all : Known Float → List (Option (Metrics Float)) → Known Float
  unfolding notify_msg
  notify_all k [] = k
  notify_all k (m ∷ ms) = notify_all (notify_msg k m) ms

  -- `GetNodeMetrics`
  unfoldable pub get_node_metrics : Known Float → Text → Option (Metrics Float)
  get_node_metrics k node = get k.metrics node
