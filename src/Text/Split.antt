-- ===== src/Text/Split.antt =====
-- Laws of `cut_at`, `split` and `join`.
use p2ser.Base.{
  ℕ, Option, ◌≡◌, ◌≢◌, refl, ap, arith, List, [], ◌∷◌, ◌++◌, ◌==◌, some, none, All, false, sym, ◌∙◌,
  inl, inr, Bool-cases, ==_iff,
}
use mathlib.Core.Path.{ap₂}
use p2ser.Text.{Text, cut_at, cut_cons, split, split_parts, join}

-- No unit of the text is `c`.
abbrev pub Lacks : ℕ → Text → Type 0
Lacks c = All (λ d. d ≢ c)

pub cut_at-append : (c : ℕ) (s rest : Text) → Lacks c s → cut_at c (s ++ c ∷ rest) ≡ some (s, rest)
unfolding cut_at
cut_at-append c [] rest h = ground arith
cut_at-append c (d ∷ s) rest h = ground (arith, cut_at-append c s rest h.1)

pub split_parts-append :
    (c : ℕ) (s rest : Text)
    → split_parts c (s ++ c ∷ rest) ≡ ((split_parts c s).0, (split_parts c s).1 ++ split c rest)
unfolding split_parts
split_parts-append c [] rest = ground arith
split_parts-append c (d ∷ s) rest = ground (arith, split_parts-append c s rest)

-- Splitting at a separator in between gives the parts of both sides.
pub split-append : (c : ℕ) (s rest : Text) → split c (s ++ c ∷ rest) ≡ split c s ++ split c rest
split-append c s rest = ground (arith, split_parts-append c s rest)

pub split_parts-Lacks : (c : ℕ) (s : Text) → Lacks c s → split_parts c s ≡ (s, [])
unfolding split_parts
split_parts-Lacks c [] h = refl
split_parts-Lacks c (d ∷ s) h = ground (arith, split_parts-Lacks c s h.1)

join-cons : (c d : ℕ) (p : Text) (ps : List Text) → join c ((d ∷ p) ∷ ps) ≡ d ∷ join c (p ∷ ps)
unfolding join
join-cons c d p [] = refl
join-cons c d p (q ∷ ps) = refl

join-nil_cons : (c : ℕ) (p : Text) (ps : List Text) → join c ([] ∷ p ∷ ps) ≡ c ∷ join c (p ∷ ps)
unfolding join
join-nil_cons c p ps = refl

join_single : (c : ℕ) (p : Text) → join c (p ∷ []) ≡ p
unfolding join
join_single c p = refl

-- Joining the parts of a split gives the text back.
pub join-split : (c : ℕ) (s : Text) → join c (split c s) ≡ s
unfolding split_parts
join-split c [] = join_single c []
join-split c (d ∷ s) = elim (Bool-cases (d == c)) [
  | inl e ↦ rw e (join-nil_cons c _ _ ∙ ap₂ ◌∷◌ (sym ((==_iff d c).0 e)) (join-split c s))
  | inr e ↦ rw e (join-cons c d _ _ ∙ ap (◌∷◌ d) (join-split c s))
]

-- What a cut leaves on both sides.
abbrev pub CutFits {κ} : (P Q : ℕ → Type κ) → Option (Text × Text) → Type κ
CutFits P Q none = Unit
CutFits P Q (some (before, after)) = All P before × All Q after

module _ {κ} (P Q : ℕ → Type κ) where
  cut_cons-CutFits :
      (d : ℕ) (r : Option (Text × Text)) → P d → CutFits P Q r → CutFits P Q (cut_cons d r)
  unfolding cut_cons
  cut_cons-CutFits d none p h = tt
  cut_cons-CutFits d (some (before, after)) p (b, a) = ((p, b), a)

  -- The units before the cut differ from the one that is sought.
  pub cut_at-CutFits :
      (c : ℕ) (s : Text)
      → All Q s
      → ((d : ℕ) → (d == c) ≡ false → Q d → P d)
      → CutFits P Q (cut_at c s)
  unfolding cut_at
  cut_at-CutFits c [] h imp = tt
  cut_at-CutFits c (d ∷ s) (q, h) imp = elim (Bool-cases (d == c)) [
    | inl e ↦ rw e (tt, h)
    | inr e ↦ rw e (cut_cons-CutFits d (cut_at c s) (imp d e q) (cut_at-CutFits c s h imp))
  ]

pub split-All {κ} :
    (P : ℕ → Type κ) (c : ℕ) (s : Text)
    → ((d : ℕ) → (d == c) ≡ false → P d)
    → All (All P) (split c s)
unfolding split_parts
split-All P c [] imp = (tt, tt)
split-All P c (d ∷ s) imp =
    let (part, parts) = split-All P c s imp in
    elim (Bool-cases (d == c)) [
      | inl e ↦ rw e (tt, (part, parts))
      | inr e ↦ rw e ((imp d e, part), parts)
    ]

-- No part of a split holds the separator.
pub split-Lacks : (c : ℕ) (s : Text) → All (Lacks c) (split c s)
split-Lacks c s = split-All (λ d. d ≢ c) c s (λ d h. ground arith)
