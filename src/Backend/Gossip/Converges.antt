-- ===== src/Backend/Gossip/Converges.antt =====
-- Nodes that have heard the same agree, whatever the order.
use p2ser.Base.{
  ◌≡◌, ◌≤◌, inl, inr, refl, sym, ap, ◌∙◌, arith, ℕ, List, [], ◌∷◌, Option, none, some, All,
}
use mathlib.Core.Path.{subst}
use p2ser.Text.{Text}
use p2ser.Backend.Gossip.{Metrics, nothing_known, notify_all, get_node_metrics}
use p2ser.Backend.Gossip.Latest.{Message, Heard, Bounded, IsLatest, get_node_metrics-IsLatest}

module _ {Float : Type 0} where
  Bounded-Heard :
      (m : Metrics Float) (node : Text) (n : ℕ) (ms : List (Message Float))
      → Heard m ms
      → m.node ≡ node
      → All (Bounded node n) ms
      → m.version ≤ n
  Bounded-Heard m node n [] h same all = absurd h
  Bounded-Heard m node n (x ∷ ms) (inl e) same (b, _) = subst (Bounded node n) e b same
  Bounded-Heard m node n (x ∷ ms) (inr h) same (_, all) = Bounded-Heard m node n ms h same all

  latest_same :
      (node : Text) (ms ns : List (Message Float)) (o p : Option (Metrics Float))
      → ((m : Metrics Float) → Heard m ms → Heard m ns)
      → ((m : Metrics Float) → Heard m ns → Heard m ms)
      → ((a b : Metrics Float)
          → Heard a ms
          → Heard b ms
          → a.node ≡ b.node
          → a.version ≡ b.version
          → a ≡ b)
      → IsLatest node ms o
      → IsLatest node ns p
      → o ≡ p
  latest_same node ms ns none none f g unique h l = refl
  latest_same node ms ns none (some b) f g unique h (heard, same, positive, _) =
      absurd (omega (arith, positive, Bounded-Heard b node 0 ms (g b heard) same h))
  latest_same node ms ns (some a) none f g unique (heard, same, positive, _) l =
      absurd (omega (arith, positive, Bounded-Heard a node 0 ns (f a heard) same l))
  latest_same node ms ns (some a) (some b) f g unique (ha, sa, _, la) (hb, sb, _, lb) = ap some (
      unique a b ha (g b hb) (sa ∙ sym sb) (
        omega (
          arith,
          Bounded-Heard b node a.version ms (g b hb) sb la,
          Bounded-Heard a node b.version ns (f a ha) sa lb,
        )))

  -- Two nodes that have heard the same messages, in any order and any number of times, know the
  -- same of every node, provided that messages of one node with one version are equal.
  pub gossip_converges :
      (ms ns : List (Message Float)) (node : Text)
      → ((m : Metrics Float) → Heard m ms → Heard m ns)
      → ((m : Metrics Float) → Heard m ns → Heard m ms)
      → ((a b : Metrics Float)
          → Heard a ms
          → Heard b ms
          → a.node ≡ b.node
          → a.version ≡ b.version
          → a ≡ b)
      → get_node_metrics (notify_all (nothing_known Float) ms) node
        ≡ get_node_metrics (notify_all (nothing_known Float) ns) node
  gossip_converges ms ns node f g unique =
      latest_same node ms ns (get_node_metrics (notify_all (nothing_known Float) ms) node)
        (get_node_metrics (notify_all (nothing_known Float) ns) node) f g unique
        (get_node_metrics-IsLatest ms node) (get_node_metrics-IsLatest ns node)
