-- ===== src/Base/Lists.antt =====
-- Lists measured by native numbers, and a predicate on every item.
use Prim.Native.Nat.{ℕ, suc, ◌+◌}
use mathlib.Core.List.{List, [], ◌∷◌, ◌++◌}
use mathlib.Core.Path.{◌≡◌, ap, refl, subst}
use mathlib.Core.Logic.{◌⊎◌, ◌≢◌, inl, inr}
use mathlib.Core.Option.{Option, none, some}
use native.Mathlib.Omega.{arith}

module _ {ℓ} {A : Type ℓ} where
  abbrev pub length : List A → ℕ
  length [] = 0
  length (x ∷ xs) = suc (length xs)

  pub length-append : (xs ys : List A) → length (xs ++ ys) ≡ length xs + length ys
  length-append [] ys = omega arith
  length-append (x ∷ xs) ys = omega (arith, length-append xs ys)

module _ {ℓ κ} {A : Type ℓ} (P : A → Type κ) where
  abbrev pub All : List A → Type κ
  All [] = Unit
  All (x ∷ xs) = P x × All xs

  pub All-append : (xs ys : List A) → All xs → All ys → All (xs ++ ys)
  All-append [] ys _ hy = hy
  All-append (x ∷ xs) ys (px, hx) hy = (px, All-append xs ys hx hy)

-- Some item has the property.
pub All-mono {ℓ κ ι} :
    {A : Type ℓ} (P : A → Type κ) (Q : A → Type ι) (xs : List A)
    → ((x : A) → P x → Q x)
    → All P xs
    → All Q xs
All-mono P Q [] f h = tt
All-mono P Q (x ∷ xs) f (p, h) = (f x p, All-mono P Q xs f h)

abbrev pub Any {ℓ} : {A : Type ℓ} → (A → Type 0) → List A → Type 0
Any P [] = ⊥
Any P (x ∷ xs) = P x ⊎ Any P xs

module _ {ℓ} {A : Type ℓ} (P : A → Type 0) where
  pub Any-All : (xs : List A) → Any P xs → All (λ x. ¬ P x) xs → ⊥
  Any-All [] h n = h
  Any-All (x ∷ xs) (inl p) (n, ns) = n p
  Any-All (x ∷ xs) (inr h) (n, ns) = Any-All xs h ns

  pub Any-append : (xs : List A) (y : A) (ys : List A) → P y → Any P (xs ++ y ∷ ys)
  Any-append [] y ys p = inl p
  Any-append (x ∷ xs) y ys p = inr (Any-append xs y ys p)

  pub Any-map : (Q : A → Type 0) (xs : List A) → ((x : A) → P x → Q x) → Any P xs → Any Q xs
  Any-map Q [] f h = h
  Any-map Q (x ∷ xs) f (inl p) = inl (f x p)
  Any-map Q (x ∷ xs) f (inr h) = inr (Any-map Q xs f h)

-- What a search from the front finds: the first item with the property, or that none has it.
module _ {A : Type 0} (P : A → Type 0) where
  abbrev pub First : List A → Option A → Type 0
  First xs none = All (λ x. ¬ P x) xs
  First xs (some x) =
      (passed later : List A) × (xs ≡ passed ++ x ∷ later) × All (λ y. ¬ P y) passed × P x

  pub First-passed : (x : A) (xs : List A) (o : Option A) → (¬ P x) → First xs o → First (x ∷ xs) o
  First-passed x xs none n f = (n, f)
  First-passed x xs (some y) n (passed, later, e, all, p) =
      (x ∷ passed, later, ap (λ (r : List A). x ∷ r) e, (n, all), p)

  pub First-holds : (xs : List A) (o : Option A) (x : A) → o ≡ some x → First xs o → P x
  First-holds xs none x e f = absurd (ground arith)
  First-holds xs (some y) x e (passed, later, _, _, p) = subst P (ground arith) p

  pub First-Any : (xs : List A) (o : Option A) → First xs o → o ≢ none → Any P xs
  First-Any xs none f h = absurd (h refl)
  First-Any xs (some x) (passed, later, e, _, p) h = rw e (Any-append P passed x later p)
