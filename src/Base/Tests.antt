-- ===== src/Base/Tests.antt =====
-- Boolean tests on the native numbers, the conditional, and the splits on computed values.
use Prim.Native.Nat.{ℕ, compare, Ordering}
use mathlib.Core.Bool.{Bool, true, false, not, ◌&&◌, ◌||◌}
use mathlib.Core.Logic.{◌↔◌, ◌⊎◌, inl, inr}
use mathlib.Core.Option.{Option, none, some}
use mathlib.Core.Path.{◌≡◌, refl}
use native.Mathlib.Omega.{arith}

abbrev pub ltb : ℕ → ℕ → Bool
ltb a b = elim (compare a b) [ Ordering.lt ↦ true | _ ↦ false ]

abbrev pub leb : ℕ → ℕ → Bool
leb a b = elim (compare a b) [ Ordering.gt ↦ false | _ ↦ true ]

infix 50 ◌==◌
abbrev pub ◌==◌ : ℕ → ℕ → Bool
a == b = elim (compare a b) [ Ordering.eq ↦ true | _ ↦ false ]

infix 1 if◌then◌else◌
abbrev pub if◌then◌else◌ {ℓ} : {A : Type ℓ} → Bool → A → A → A
if true then x else y = x
if false then x else y = y

pub ==_iff : (a b : ℕ) → ((a == b) ≡ true) ↔ (a ≡ b)
==_iff a b = ground arith

pub Bool-cases : (b : Bool) → (b ≡ true) ⊎ (b ≡ false)
Bool-cases true = inl refl
Bool-cases false = inr refl

pub Option-cases {ℓ} : {A : Type ℓ} (o : Option A) → (o ≡ none) ⊎ ((a : A) × (o ≡ some a))
Option-cases none = inl refl
Option-cases (some a) = inr (a, refl)

-- A test that is put together decides what its parts decide.
module _ {ℓ κ} {A : Type ℓ} {B : Type κ} where
  pub or_iff : (a b : Bool) → (a ≡ true) ↔ A → (b ≡ true) ↔ B → ((a || b) ≡ true) ↔ (A ⊎ B)
  or_iff true b p q = (λ _. inl (p.0 refl), λ _. refl)
  or_iff false b p q = (λ h. inr (q.0 h), λ s. elim s [ inl x ↦ cc (p.1 x) | inr y ↦ q.1 y ])

  pub and_iff : (a b : Bool) → (a ≡ true) ↔ A → (b ≡ true) ↔ B → ((a && b) ≡ true) ↔ (A × B)
  and_iff true b p q = (λ h. (p.0 refl, q.0 h), λ s. q.1 s.1)
  and_iff false b p q = (λ h. cc h, λ s. p.1 s.0)

pub not_iff : (a : Bool) → (not a ≡ true) ↔ (a ≡ false)
not_iff a = ground arith

pub not_both : (a : Bool) → a ≡ true → a ≡ false → ⊥
not_both a h g = ground arith
