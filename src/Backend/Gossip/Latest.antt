-- ===== src/Backend/Gossip/Latest.antt =====
-- What a node knows of another is the newest that it has heard.
use p2ser.Base.{
  ◌≡◌, ◌≤◌, ◌<◌, ◌⊎◌, inl, inr, refl, sym, ap, ◌∙◌, arith, ℕ, true, false, List, [], ◌∷◌, leb,
  if◌then◌else◌, Option, none, some, All, Any, Bool-cases, not_both,
}
use mathlib.Core.Path.{subst}
use p2ser.Dict.{get, put, get-put}
use p2ser.Text.{Text, equal}
use p2ser.Text.Equality.{equal_iff}
use p2ser.Backend.Gossip.{
  Metrics, Known, nothing_known, version_or_zero, notify_msg, notify_all, get_node_metrics,
}

abbrev pub Message : Type 0 → Type 0
Message Float = Option (Metrics Float)

nothing_version : (node : Text) → version_or_zero (get {V = ℕ} [] node) ≡ 0
unfolding get version_or_zero
nothing_version node = refl

module _ {Float : Type 0} where
  abbrev pub Heard : Metrics Float → List (Message Float) → Type 0
  Heard m = Any (λ (x : Message Float). x ≡ some m)

  -- A message of the node has no version above the bound.
  abbrev pub Bounded : Text → ℕ → Message Float → Type 0
  Bounded node n none = Unit
  Bounded node n (some m) = m.node ≡ node → m.version ≤ n

  -- The newest of the messages of a node, or none where there is none with a positive version.
  abbrev pub IsLatest : Text → List (Message Float) → Option (Metrics Float) → Type 0
  IsLatest node ms none = All (Bounded node 0) ms
  IsLatest node ms (some m) =
      Heard m ms × (m.node ≡ node) × (0 < m.version) × All (Bounded node m.version) ms

  known_version : Known Float → Text → ℕ
  known_version k node = version_or_zero (get k.versions node)

  -- What the messages leave of a node: what was known, or the newest of them.
  abbrev Stays : Known Float → Text → List (Message Float) → Type 0
  Stays k node ms =
      (get_node_metrics (notify_all k ms) node ≡ get_node_metrics k node)
      × All (Bounded node (known_version k node)) ms

  abbrev Moves : Known Float → Text → List (Message Float) → Type 0
  Moves k node ms =
      (m : Metrics Float) × (get_node_metrics (notify_all k ms) node ≡ some m)
      × Heard m ms
      × (m.node ≡ node)
      × (known_version k node < m.version)
      × All (Bounded node m.version) ms

  abbrev taken : Known Float → Metrics Float → Known Float
  taken k m = record {
    versions = put k.versions m.node m.version;
    metrics = put k.metrics m.node m;
  }

  notify_old :
      (k : Known Float) (m : Metrics Float)
      → leb m.version (known_version k m.node) ≡ true
      → notify_msg k (some m) ≡ k
  unfolding notify_msg known_version
  notify_old k m e = rw e refl

  notify_new :
      (k : Known Float) (m : Metrics Float)
      → leb m.version (known_version k m.node) ≡ false
      → notify_msg k (some m) ≡ taken k m
  unfolding notify_msg known_version
  notify_new k m e = rw e refl

  known_version-taken :
      (k : Known Float) (m : Metrics Float) (node : Text)
      → known_version (taken k m) node
        ≡ (if equal m.node node then m.version else known_version k node)
  unfolding known_version version_or_zero
  known_version-taken k m node =
      ap version_or_zero (get-put k.versions m.node node m.version)
      ∙ (elim (Bool-cases (equal m.node node)) [ inl e ↦ rw e refl | inr e ↦ rw e refl ])

  metrics-taken :
      (k : Known Float) (m : Metrics Float) (node : Text)
      → get_node_metrics (taken k m) node
        ≡ (if equal m.node node then some m else get_node_metrics k node)
  unfolding get_node_metrics
  metrics-taken k m node = get-put k.metrics m.node node m

  notify_all-cons :
      (k : Known Float) (x : Message Float) (ms : List (Message Float))
      → notify_all k (x ∷ ms) ≡ notify_all (notify_msg k x) ms
  unfolding notify_all
  notify_all-cons k x ms = refl

  notify_none : (k : Known Float) → notify_msg k none ≡ k
  unfolding notify_msg
  notify_none k = refl

  -- A message that changes nothing of the node.
  pass :
      (k next : Known Float) (node : Text) (x : Message Float) (ms : List (Message Float))
      → notify_msg k x ≡ next
      → known_version next node ≡ known_version k node
      → get_node_metrics next node ≡ get_node_metrics k node
      → ((n : ℕ) → known_version k node ≤ n → Bounded node n x)
      → Stays next node ms ⊎ Moves next node ms
      → Stays k node (x ∷ ms) ⊎ Moves k node (x ∷ ms)
  pass k next node x ms step v g bound (inl (e, all)) =
      let first = notify_all-cons k x ms ∙ ap (λ s. notify_all s ms) step in
      inl (
        ap (λ s. get_node_metrics s node) first ∙ e ∙ g,
        (bound _ (omega arith), subst (λ n. All (Bounded node n) ms) v all),
      )
  pass k next node x ms step v g bound (inr (m, e, heard, same, later, all)) =
      let first = notify_all-cons k x ms ∙ ap (λ s. notify_all s ms) step in
      inr (
        m,
        ap (λ s. get_node_metrics s node) first ∙ e,
        inr heard,
        same,
        omega (arith, v, later),
        (bound m.version (omega (arith, v, later)), all),
      )

  -- A newer message of the node.
  move :
      (k : Known Float) (node : Text) (m : Metrics Float) (ms : List (Message Float))
      → leb m.version (known_version k m.node) ≡ false
      → m.node ≡ node
      → Stays (taken k m) node ms ⊎ Moves (taken k m) node ms
      → Moves k node (some m ∷ ms)
  move k node m ms new same rest =
      let first = notify_all-cons k (some m) ms ∙ ap (λ s. notify_all s ms) (notify_new k m new) in
      let here = (equal_iff m.node node).1 same in
      let v : known_version (taken k m) node ≡ m.version =
        known_version-taken k m node ∙ rw here refl in
      let below : known_version k node < m.version =
        subst (λ n. known_version k n < m.version) same (ground (arith, new)) in
      elim rest [
        | inl (e, all) ↦ (
          m,
          ap (λ s. get_node_metrics s node) first ∙ e ∙ metrics-taken k m node ∙ rw here refl,
          inl refl,
          same,
          below,
          (λ _. omega arith, subst (λ n. All (Bounded node n) ms) v all),
        )
        | inr (n, e, heard, there, later, all) ↦ (
          n,
          ap (λ s. get_node_metrics s node) first ∙ e,
          inr heard,
          there,
          omega (arith, below, v, later),
          (λ _. omega (arith, v, later), all),
        )
      ]

  notify_all-cases :
      (k : Known Float) (node : Text) (ms : List (Message Float))
      → Stays k node ms ⊎ Moves k node ms
  unfolding notify_all
  notify_all-cases k node [] = inl (refl, tt)
  notify_all-cases k node (none ∷ ms) =
      pass k k node none ms (notify_none k) refl refl (λ n h. tt) (notify_all-cases k node ms)
  notify_all-cases k node (some m ∷ ms) =
      elim (Bool-cases (leb m.version (known_version k m.node))) [
        | inl old ↦
            pass k k node (some m) ms (notify_old k m old) refl refl
              (λ n h same.
                let below : m.version ≤ known_version k node =
                  subst (λ x. m.version ≤ known_version k x) same (ground (arith, old)) in
                omega (arith, below, h))
              (notify_all-cases k node ms)
        | inr new ↦ elim (Bool-cases (equal m.node node)) [
          | inl here ↦ inr (
              move k node m ms new ((equal_iff m.node node).0 here)
                (notify_all-cases (taken k m) node ms))
          | inr other ↦
              pass k (taken k m) node (some m) ms (notify_new k m new)
                (known_version-taken k m node ∙ rw other refl)
                (metrics-taken k m node ∙ rw other refl)
                (λ n h same. absurd (not_both _ ((equal_iff m.node node).1 same) other))
                (notify_all-cases (taken k m) node ms)
        ]
      ]

  nothing_metrics : (node : Text) → get_node_metrics (nothing_known Float) node ≡ none
  unfolding get_node_metrics get
  nothing_metrics node = refl

  -- What is known of a node is the newest message of the node that has been heard.
  pub get_node_metrics-IsLatest :
      (ms : List (Message Float)) (node : Text)
      → IsLatest node ms (get_node_metrics (notify_all (nothing_known Float) ms) node)
  unfolding known_version
  get_node_metrics-IsLatest ms node = elim (notify_all-cases (nothing_known Float) node ms) [
    | inl (e, all) ↦
        subst (IsLatest node ms) (sym (e ∙ nothing_metrics node))
          (subst (λ n. All (Bounded node n) ms) (nothing_version node) all)
    | inr (m, e, heard, same, later, all) ↦
        subst (IsLatest node ms) (sym e)
          (heard, same, omega (arith, later, nothing_version node), all)
  ]
