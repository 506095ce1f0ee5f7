-- ===== src/Backend/EnvFile/Trim.antt =====
-- Laws of `strings.TrimSpace`.
use p2ser.Base.{ℕ, ◌≡◌, refl, sym, ap, ◌∙◌, arith, [], ◌∷◌, ◌++◌, true, false, inl, inr, Bool-cases}
use p2ser.Text.{Text}
use p2ser.Backend.EnvFile.{is_white, trim_left, right_cons, trim_right, trim_space}

trim_left-solid : (c : ℕ) (s : Text) → is_white c ≡ false → trim_left (c ∷ s) ≡ c ∷ s
unfolding trim_left
trim_left-solid c s h = rw h refl

trim_left-white : (c : ℕ) (s : Text) → is_white c ≡ true → trim_left (c ∷ s) ≡ trim_left s
unfolding trim_left
trim_left-white c s h = rw h refl

right_cons-solid : (c : ℕ) (s : Text) → is_white c ≡ false → right_cons c s ≡ c ∷ s
unfolding right_cons
right_cons-solid c [] h = rw h refl
right_cons-solid c (d ∷ s) h = refl

trim_right-cons : (c : ℕ) (s : Text) → trim_right (c ∷ s) ≡ right_cons c (trim_right s)
unfolding trim_right
trim_right-cons c s = refl

pub trim_right-solid :
    (c : ℕ) (s : Text) → is_white c ≡ false → trim_right (c ∷ s) ≡ c ∷ trim_right s
trim_right-solid c s h = trim_right-cons c s ∙ right_cons-solid c (trim_right s) h

-- Nothing in front of a solid character is lost at the end.
pub trim_right-append :
    (s : Text) (c : ℕ) (t : Text)
    → is_white c ≡ false
    → trim_right (s ++ c ∷ t) ≡ s ++ c ∷ trim_right t
unfolding right_cons
trim_right-append [] c t h = trim_right-solid c t h
trim_right-append (d ∷ []) c t h =
    trim_right-cons d (c ∷ t) ∙ ap (right_cons d) (trim_right-append [] c t h)
trim_right-append (d ∷ e ∷ s) c t h =
    trim_right-cons d ((e ∷ s) ++ c ∷ t) ∙ ap (right_cons d) (trim_right-append (e ∷ s) c t h)

right_cons_idem :
    (c : ℕ) (s : Text) → trim_right s ≡ s → trim_right (right_cons c s) ≡ right_cons c s
unfolding trim_right right_cons
right_cons_idem c [] h = ground arith
right_cons_idem c (d ∷ s) h = rw h refl

trim_right_idem : (s : Text) → trim_right (trim_right s) ≡ trim_right s
unfolding trim_right
trim_right_idem [] = refl
trim_right_idem (c ∷ s) = right_cons_idem c (trim_right s) (trim_right_idem s)

left-right_cons : (c : ℕ) (s : Text) → is_white c ≡ true → trim_left (right_cons c s) ≡ trim_left s
unfolding right_cons
left-right_cons c [] h = rw h refl
left-right_cons c (d ∷ s) h = trim_left-white c (d ∷ s) h

-- The two ends do not interfere.
left-right : (s : Text) → trim_left (trim_right s) ≡ trim_right (trim_left s)
unfolding trim_left trim_right
left-right [] = refl
left-right (c ∷ s) = elim (Bool-cases (is_white c)) [
  | inl e ↦ left-right_cons c (trim_right s) e ∙ left-right s ∙ rw e refl
  | inr e ↦
      ap trim_left (right_cons-solid c (trim_right s) e)
      ∙ trim_left-solid c (trim_right s) e
      ∙ sym (right_cons-solid c (trim_right s) e)
      ∙ rw e refl
]

-- White space at the end goes first or last.
pub trim_space-trim_right : (s : Text) → trim_space (trim_right s) ≡ trim_space s
unfolding trim_space
trim_space-trim_right s = ap trim_right (left-right s) ∙ trim_right_idem (trim_left s)

pub trim_space-solid :
    (c : ℕ) (s : Text) → is_white c ≡ false → trim_space (c ∷ s) ≡ trim_right (c ∷ s)
unfolding trim_space
trim_space-solid c s h = ap trim_right (trim_left-solid c s h)
