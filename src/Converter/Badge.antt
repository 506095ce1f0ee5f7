-- ===== src/Converter/Badge.antt =====
-- The list of the fields that a service will lose, at the foot of its settings card.
use p2ser.Base.{
  ◌≡◌, refl, ◌↔◌, inl, inr, Bool-cases, arith, Bool, true, false, List, [], ◌∷◌, Option, none, some,
  if◌then◌else◌, All,
}
use p2ser.Json.{Json, Fields, end, field, get_field, remove_field}
use p2ser.Text.{Text, codes, equal}
use p2ser.Converter.Convert.Service.{strip}
use p2ser.Converter.Convert.Kept.{strip_removes}

abbrev pub badge_fields : List Text
badge_fields = codes "build" ∷ codes "container_name" ∷ codes "healthcheck" ∷ codes "networks" ∷ []

module _ {Num : Type 0} where
  -- `parsed.services[name][k] !== undefined`
  unfoldable pub is_present : Option (Json Num) → Bool
  is_present none = false
  is_present (some v) = true

  unfoldable pub present_among : Fields Num → List Text → List Text
  present_among svc [] = []
  present_among svc (k ∷ ks) =
      let rest = present_among svc ks in if is_present (get_field svc k) then k ∷ rest else rest

  -- The fields that are shown; where there are none the card says that the service is compatible.
  unfoldable pub stripped_fields : Fields Num → List Text
  unfolding present_among
  stripped_fields svc = present_among svc badge_fields

  remove_absent : (fs : Fields Num) (k : Text) → get_field fs k ≡ none → remove_field fs k ≡ fs
  unfolding get_field remove_field
  remove_absent end k h = refl
  remove_absent (field j v fs) k h = elim (Bool-cases (equal j k)) [
    | inl e ↦ absurd (ground arith)
    | inr e ↦ rw (e, remove_absent fs k (ground arith))
  ]

  absent-All :
      (svc : Fields Num) (ks : List Text)
      → present_among svc ks ≡ []
      → All (λ k. get_field svc k ≡ none) ks
  unfolding present_among is_present
  absent-All svc [] h = tt
  absent-All svc (k ∷ ks) h = (ground arith, absent-All svc ks (ground arith))

  All-absent :
      (svc : Fields Num) (ks : List Text)
      → All (λ k. get_field svc k ≡ none) ks
      → present_among svc ks ≡ []
  unfolding present_among is_present
  All-absent svc [] h = refl
  All-absent svc (k ∷ ks) (h, hs) = rw (h, All-absent svc ks hs)

  strip_absent :
      (svc : Fields Num) → All (λ k. get_field svc k ≡ none) badge_fields → strip svc ≡ svc
  unfolding strip
  strip_absent svc (b, (c, (h, (n, _)))) =
      rw
        (
          remove_absent svc (codes "container_name") c,
          remove_absent svc (codes "healthcheck") h,
          remove_absent svc (codes "networks") n,
          remove_absent svc (codes "build") b,
        )
        refl

  absent_strip :
      (svc : Fields Num) → strip svc ≡ svc → All (λ k. get_field svc k ≡ none) badge_fields
  unfolding equal
  absent_strip svc e = (
    rw e at (strip_removes svc (codes "build") (inr (inr (inr refl)))),
    (
      rw e at (strip_removes svc (codes "container_name") (inl refl)),
      (
        rw e at (strip_removes svc (codes "healthcheck") (inr (inl refl))),
        (rw e at (strip_removes svc (codes "networks") (inr (inr (inl refl)))), tt),
      ),
    ),
  )

  -- The card calls a service compatible exactly if the conversion takes no field from it.
  pub stripped_fields-strip : (svc : Fields Num) → (stripped_fields svc ≡ []) ↔ (strip svc ≡ svc)
  unfolding stripped_fields
  stripped_fields-strip svc = (
    λ h. strip_absent svc (absent-All svc badge_fields h),
    λ e. All-absent svc badge_fields (absent_strip svc e),
  )
