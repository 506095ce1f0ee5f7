-- ===== src/Backend/Store/Cursor/Scan.antt =====
-- The cursor finds the entries whose keys have the prefix, all of them and in order.
use p2ser.Base.{
  ◌≡◌, refl, ap, arith, inl, inr, Bool-cases, true, false, [], ◌∷◌, if◌then◌else◌, none, All,
}
use p2ser.Dict.{Dict, get}
use p2ser.Dict.Distinct.{Distinct}
use p2ser.Text.{Text, codes, equal}
use p2ser.Backend.Store.Library.{Bolt, Gcm, before, Ascending}
use p2ser.Backend.Store.{Fsm}
use p2ser.Backend.Store.Cursor.{has_prefix, seek, while_prefix, pods_of, get_all_pods}

before_irrefl : (k j : Text) → before k j ≡ true → equal j k ≡ false
unfolding before equal
before_irrefl k [] h = absurd (ground arith)
before_irrefl [] (y ∷ j) h = refl
before_irrefl (x ∷ k) (y ∷ j) h = ground (arith, before_irrefl k j)

before_trans : (a b c : Text) → before a b ≡ true → before b c ≡ true → before a c ≡ true
unfolding before
before_trans a b [] h g = absurd (ground arith)
before_trans a [] (z ∷ c) h g = absurd (ground arith)
before_trans [] (y ∷ b) (z ∷ c) h g = refl
before_trans (x ∷ a) (y ∷ b) (z ∷ c) h g = ground (arith, before_trans a b c)

before-has_prefix : (k p : Text) → before k p ≡ true → has_prefix p k ≡ false
unfolding before has_prefix
before-has_prefix k [] h = absurd (ground arith)
before-has_prefix [] (y ∷ p) h = refl
before-has_prefix (x ∷ k) (y ∷ p) h = ground (arith, before-has_prefix k p)

-- Once the cursor has left the prefix, no later key has it.
has_prefix_later :
    (p k j : Text)
    → before k p ≡ false
    → has_prefix p k ≡ false
    → before k j ≡ true
    → has_prefix p j ≡ false
unfolding before has_prefix
has_prefix_later [] k j h g b = absurd (ground arith)
has_prefix_later (y ∷ p) [] j h g b = absurd (ground arith)
has_prefix_later (y ∷ p) (x ∷ k) [] h g b = refl
has_prefix_later (y ∷ p) (x ∷ k) (z ∷ j) h g b = ground (arith, has_prefix_later p k j)

module _ {ℓ} {V : Type ℓ} where
  -- The entries whose keys have the prefix.
  abbrev pub keep : Text → Dict V → Dict V
  keep p [] = []
  keep p ((k, v) ∷ es) = let rest = keep p es in if has_prefix p k then (k, v) ∷ rest else rest

  abbrev Later : Text → Dict V → Type 0
  Later k es = All (λ (e : Text × V). before k e.0 ≡ true) es

  keep_none :
      (p k : Text) (es : Dict V)
      → before k p ≡ false
      → has_prefix p k ≡ false
      → Later k es
      → keep p es ≡ []
  keep_none p k [] h g l = refl
  keep_none p k ((j, v) ∷ es) h g (b, l) =
      rw (has_prefix_later p k j h g b) (keep_none p k es h g l)

  abbrev NotBefore : Text → Dict V → Type 0
  NotBefore p es = All (λ (e : Text × V). before e.0 p ≡ false) es

  Later-NotBefore : (p k : Text) (es : Dict V) → before k p ≡ false → Later k es → NotBefore p es
  Later-NotBefore p k [] h l = tt
  Later-NotBefore p k ((j, v) ∷ es) h (b, l) =
      (ground (arith, before_trans k j p b), Later-NotBefore p k es h l)

  while_prefix-keep :
      (p : Text) (es : Dict V) → NotBefore p es → Ascending es → while_prefix p es ≡ keep p es
  unfolding while_prefix
  while_prefix-keep p [] n a = refl
  while_prefix-keep p ((k, v) ∷ es) (n, ns) (l, a) = elim (Bool-cases (has_prefix p k)) [
    | inl e ↦ rw e (ap (λ (r : Dict V). (k, v) ∷ r) (while_prefix-keep p es ns a))
    | inr e ↦ rw (e, keep_none p k es n e l) refl
  ]

  pub scan-keep : (p : Text) (es : Dict V) → Ascending es → while_prefix p (seek p es) ≡ keep p es
  unfolding seek
  scan-keep p [] a = while_prefix-keep p [] tt tt
  scan-keep p ((k, v) ∷ es) (l, a) = elim (Bool-cases (before k p)) [
    | inl e ↦ rw (e, before-has_prefix k p e) (scan-keep p es a)
    | inr e ↦ rw e (while_prefix-keep p ((k, v) ∷ es) (e, Later-NotBefore p k es e l) (l, a))
  ]

  absent : (k : Text) (es : Dict V) → Later k es → get es k ≡ none
  unfolding get
  absent k [] l = refl
  absent k ((j, v) ∷ es) (b, l) = rw (before_irrefl k j b) (absent k es l)

  pub Ascending-Distinct : (es : Dict V) → Ascending es → Distinct es
  Ascending-Distinct [] a = tt
  Ascending-Distinct ((k, v) ∷ es) (l, a) = (absent k es l, Ascending-Distinct es a)

-- `GetAllPods` returns the values that can be read under the keys with the prefix `pod:`, all of
-- them and in the order of their keys.
pub get_all_pods-keep :
    (lib : Bolt) (gcm : Gcm) (f : Fsm lib.Bucket)
    → get_all_pods lib gcm f ≡ pods_of gcm f.secret_key (keep (codes "pod:") (lib.entries f.db))
unfolding get_all_pods
get_all_pods-keep lib gcm f =
    ap (pods_of gcm f.secret_key)
      (scan-keep (codes "pod:") (lib.entries f.db) (lib.entries-Ascending f.db))
