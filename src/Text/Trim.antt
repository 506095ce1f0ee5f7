-- ===== src/Text/Trim.antt =====
-- Laws of `trim`.
use p2ser.Base.{
  ℕ, ◌≡◌, refl, sym, ◌∙◌, ap, arith, [], ◌∷◌, ◌++◌, true, false, All, inl, inr, Bool-cases,
}
use p2ser.Text.{Text, is_space, trim_start, trim_cons, trim_end, trim}

pub trim_start-solid : (c : ℕ) (s : Text) → is_space c ≡ false → trim_start (c ∷ s) ≡ c ∷ s
unfolding trim_start
trim_start-solid c s h = rw h

trim_cons-solid : (c : ℕ) (s : Text) → is_space c ≡ false → trim_cons c s ≡ c ∷ s
unfolding trim_cons
trim_cons-solid c [] h = rw h
trim_cons-solid c (d ∷ s) h = refl

pub trim_end-solid : (c : ℕ) (s : Text) → is_space c ≡ false → trim_end (c ∷ s) ≡ c ∷ trim_end s
unfolding trim_end
trim_end-solid c s h = trim_cons-solid c (trim_end s) h

-- A unit in front of a text that keeps something is kept.
pub trim_end-cons : (c d : ℕ) (s t : Text) → trim_end s ≡ d ∷ t → trim_end (c ∷ s) ≡ c ∷ d ∷ t
unfolding trim_end trim_cons
trim_end-cons c d s t e = rw e

-- The white space before a solid unit is kept.
pub trim_end-append : (s : Text) (c : ℕ) → is_space c ≡ false → trim_end (s ++ c ∷ []) ≡ s ++ c ∷ []
unfolding trim_end
trim_end-append [] c h = trim_cons-solid c [] h
trim_end-append (d ∷ []) c h = trim_end-cons d c (c ∷ []) [] (trim_end-append [] c h)
trim_end-append (d ∷ e ∷ s) c h =
    trim_end-cons d e (e ∷ (s ++ c ∷ [])) (s ++ c ∷ []) (trim_end-append (e ∷ s) c h)

pub trim-solid : (c : ℕ) (s : Text) → is_space c ≡ false → trim (c ∷ s) ≡ c ∷ trim_end s
unfolding trim
trim-solid c s h = rw (trim_start-solid c s h) (trim_end-solid c s h)

module _ {κ} (P : ℕ → Type κ) where
  All-trim_cons : (c : ℕ) (s : Text) → P c → All P s → All P (trim_cons c s)
  unfolding trim_cons
  All-trim_cons c [] p h = elim (Bool-cases (is_space c)) [ inl e ↦ rw e tt | inr e ↦ rw e (p, tt) ]
  All-trim_cons c (d ∷ s) p h = (p, h)

  pub All-trim_end : (s : Text) → All P s → All P (trim_end s)
  unfolding trim_end
  All-trim_end [] h = h
  All-trim_end (c ∷ s) (p, h) = All-trim_cons c (trim_end s) p (All-trim_end s h)

  pub All-trim_start : (s : Text) → All P s → All P (trim_start s)
  unfolding trim_start
  All-trim_start [] h = h
  All-trim_start (c ∷ s) (p, h) = elim (Bool-cases (is_space c)) [
    | inl e ↦ rw e (All-trim_start s h)
    | inr e ↦ rw e (p, h)
  ]

trim_end-trim_cons : (c : ℕ) (s : Text) → trim_end s ≡ s → trim_end (trim_cons c s) ≡ trim_cons c s
unfolding trim_end trim_cons
trim_end-trim_cons c [] h = ground arith
trim_end-trim_cons c (d ∷ s) h = rw h

pub trim_end_idem : (s : Text) → trim_end (trim_end s) ≡ trim_end s
unfolding trim_end
trim_end_idem [] = refl
trim_end_idem (c ∷ s) = trim_end-trim_cons c (trim_end s) (trim_end_idem s)

-- The first unit that `trim_start` keeps is no white space.
abbrev pub StartsSolid : Text → Type 0
StartsSolid [] = Unit
StartsSolid (c ∷ s) = is_space c ≡ false

pub trim_start-StartsSolid : (s : Text) → StartsSolid (trim_start s)
unfolding trim_start
trim_start-StartsSolid [] = tt
trim_start-StartsSolid (c ∷ s) = elim (Bool-cases (is_space c)) [
  | inl e ↦ rw e (trim_start-StartsSolid s)
  | inr e ↦ rw e e
]

trim_end-StartsSolid : (s : Text) → StartsSolid s → StartsSolid (trim_end s)
trim_end-StartsSolid [] h = unfold trim_end in tt
trim_end-StartsSolid (c ∷ s) h = rw (trim_end-solid c s h) h

pub trim-StartsSolid : (s : Text) → StartsSolid (trim s)
unfolding trim
trim-StartsSolid s = trim_end-StartsSolid (trim_start s) (trim_start-StartsSolid s)

trim-space : (c : ℕ) (s : Text) → is_space c ≡ true → trim (c ∷ s) ≡ trim s
unfolding trim trim_start
trim-space c s h = rw h

trim-trim_cons : (c : ℕ) (s : Text) → is_space c ≡ true → trim (trim_cons c s) ≡ trim s
trim-trim_cons c [] h = unfold trim_cons in rw h
trim-trim_cons c (d ∷ s) h = unfold trim_cons in trim-space c (d ∷ s) h

trim_cons-trim :
    (c : ℕ) (s : Text) → trim (trim_end s) ≡ trim s → trim (trim_cons c (trim_end s)) ≡ trim (c ∷ s)
trim_cons-trim c s h = elim (Bool-cases (is_space c)) [
  | inl e ↦ trim-trim_cons c (trim_end s) e ∙ h ∙ sym (trim-space c s e)
  | inr e ↦
      ap trim (trim_cons-solid c (trim_end s) e)
      ∙ trim-solid c (trim_end s) e
      ∙ ap (◌∷◌ c) (trim_end_idem s)
      ∙ sym (trim-solid c s e)
]

-- White space at the end goes first or last.
pub trim-trim_end : (s : Text) → trim (trim_end s) ≡ trim s
unfolding trim trim_start trim_end
trim-trim_end [] = refl
trim-trim_end (c ∷ s) = trim_cons-trim c s (trim-trim_end s)

pub trim_end-append_cons :
    (s : Text) (c : ℕ) (t : Text) → is_space c ≡ false → trim_end (s ++ c ∷ t) ≡ s ++ c ∷ trim_end t
unfolding trim_end
trim_end-append_cons [] c t h = trim_cons-solid c (trim_end t) h
trim_end-append_cons (d ∷ []) c t h =
    trim_end-cons d c (c ∷ t) (trim_end t) (trim_end-append_cons [] c t h)
trim_end-append_cons (d ∷ e ∷ s) c t h =
    trim_end-cons d e (e ∷ (s ++ c ∷ t)) (s ++ c ∷ trim_end t) (trim_end-append_cons (e ∷ s) c t h)
