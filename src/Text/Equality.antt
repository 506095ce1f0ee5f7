-- ===== src/Text/Equality.antt =====
-- `equal` decides equality of texts.
use p2ser.Base.{◌≡◌, ◌≢◌, ◌↔◌, refl, ◌∷◌, true, false, arith, inl, inr, Bool-cases}
use p2ser.Text.{Text, equal}

pub equal_iff : (a b : Text) → (equal a b ≡ true) ↔ (a ≡ b)
unfolding equal
equal_iff (x ∷ a) (y ∷ b) = ground (arith, equal_iff a b)
equal_iff _ _ = ground arith

pub equal_refl : (a : Text) → equal a a ≡ true
equal_refl a = (equal_iff a a).1 refl

pub equal_ne : (a b : Text) → a ≢ b → equal a b ≡ false
equal_ne a b h = elim (Bool-cases (equal a b)) [
  | inl e ↦ absurd (h ((equal_iff a b).0 e))
  | inr e ↦ e
]
