-- ===== src/Converter/Interpolate/Fuel.antt =====
-- The length of the text is fuel enough for the replacement: every match takes units away.
use p2ser.Base.{
  ℕ, zero, suc, ◌≤◌, ◌<◌, [], ◌∷◌, ◌++◌, ◌==◌, none, some, ◌≡◌, refl, ap, arith, length, Option,
  inl, inr, Bool-cases, Option-cases,
}
use p2ser.Dict.{Dict}
use p2ser.Text.{Text, cut_at}
use p2ser.Converter.Interpolate.{
  span_word, take_name, after_name, reference, value_of, replace, interpolate, match_at, braced,
  bare,
}

length-span_word : (s : Text) → length (span_word s).1 ≤ length s
unfolding span_word
length-span_word [] = omega arith
length-span_word (c ∷ s) = ground (arith, length-span_word s)

length-cut_at :
    (c : ℕ) (s before after : Text) → cut_at c s ≡ some (before, after) → length after < length s
unfolding cut_at
length-cut_at c [] before after e = cc
length-cut_at c (d ∷ s) before after e = elim (Option-cases (cut_at c s)) [
  | inl n ↦ ground arith
  | inr ((b, a), f) ↦ ground (arith, length-cut_at c s b a f)
]

length-take_name : (s name rest : Text) → take_name s ≡ some (name, rest) → length rest < length s
unfolding take_name
length-take_name [] name rest e = cc
length-take_name (c ∷ s) name rest e = ground (arith, length-span_word s)

length-after_name :
    (s fallback rest : Text) → after_name s ≡ some (fallback, rest) → length rest < length s
unfolding after_name
length-after_name [] fallback rest e = cc
length-after_name (c ∷ []) fallback rest e = ground (arith, length-cut_at b'}' [] fallback rest)
length-after_name (c ∷ d ∷ s) fallback rest e =
    ground (arith, length-cut_at b'}' (d ∷ s) fallback rest, length-cut_at b'}' s fallback rest)

length-braced :
    (s name fallback rest : Text)
    → braced (take_name s) ≡ some (name, fallback, rest)
    → length rest ≤ length s
unfolding braced
length-braced s name fallback rest e = elim (Option-cases (take_name s)) [
  | inl n ↦ absurd (cc n)
  | inr ((word, t), n) ↦ elim (Option-cases (after_name t)) [
    | inl m ↦ ground arith
    | inr ((d, u), m) ↦ ground (arith, length-take_name s word t n, length-after_name t d u m)
  ]
]

length-bare :
    (s name fallback rest : Text)
    → bare (take_name s) ≡ some (name, fallback, rest)
    → length rest ≤ length s
unfolding bare
length-bare s name fallback rest e = elim (Option-cases (take_name s)) [
  | inl n ↦ ground arith
  | inr ((word, t), n) ↦ ground (arith, length-take_name s word t n)
]

length-reference :
    (s name fallback rest : Text)
    → reference s ≡ some (name, fallback, rest)
    → length rest ≤ length s
unfolding reference
length-reference [] name fallback rest e = cc
length-reference (c ∷ s) name fallback rest e = elim (Bool-cases (c == b'{')) [
  | inl b ↦ omega (arith, length-braced s name fallback rest (rw b at e))
  | inr b ↦ length-bare (c ∷ s) name fallback rest (rw b at e)
]

pub length-match_at :
    (c : ℕ) (s name fallback rest : Text)
    → match_at c s ≡ some (name, fallback, rest)
    → length rest ≤ length s
unfolding match_at
length-match_at c s name fallback rest e = ground (arith, length-reference s name fallback rest)

module _ (inherited : Text → Option Text) (env : Dict Text) where
  -- The replacement of the references comes to its end within as many rounds as the text has units:
  -- with any larger number of rounds the result is the same.
  pub replace_enough :
      (f g : ℕ) (s : Text)
      → length s ≤ f
      → length s ≤ g
      → replace inherited env f s ≡ replace inherited env g s
  unfolding replace
  replace_enough zero zero s h k = refl
  replace_enough zero (suc g) [] h k = refl
  replace_enough zero (suc g) (c ∷ s) h k = absurd (omega arith)
  replace_enough (suc f) zero [] h k = refl
  replace_enough (suc f) zero (c ∷ s) h k = absurd (omega arith)
  replace_enough (suc f) (suc g) [] h k = refl
  replace_enough (suc f) (suc g) (c ∷ s) h k = elim (Option-cases (match_at c s)) [
    | inl n ↦ rw (n, replace) (ap (◌∷◌ c) (replace_enough f g s (omega arith) (omega arith)))
    | inr ((name, fallback, rest), m) ↦
        let shorter = length-match_at c s name fallback rest m in
        rw (m, replace)
          (ap (◌++◌ (value_of inherited env name fallback))
            (replace_enough f g rest (omega arith) (omega arith)))
  ]

  -- One round of the replacement, without fuel.
  pub interpolate-cons :
      (c : ℕ) (s : Text)
      → match_at c s ≡ none
      → interpolate inherited env (c ∷ s) ≡ c ∷ interpolate inherited env s
  unfolding interpolate replace
  interpolate-cons c s n = rw (n, replace)

  pub interpolate-match :
      (c : ℕ) (s name fallback rest : Text)
      → match_at c s ≡ some (name, fallback, rest)
      → interpolate inherited env (c ∷ s)
        ≡ value_of inherited env name fallback ++ interpolate inherited env rest
  unfolding interpolate replace
  interpolate-match c s name fallback rest m =
      let shorter = length-match_at c s name fallback rest m in
      rw (m, replace)
        (ap (◌++◌ (value_of inherited env name fallback))
          (replace_enough (length s) (length rest) rest shorter (omega arith)))
