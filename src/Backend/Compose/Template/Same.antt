-- ===== src/Backend/Compose/Template/Same.antt =====
-- The two functions `interpolate`, of the server on bytes and of the page on UTF-16 units.
use p2ser.Base.{
  sym, ◌∙◌, List, All, ◌≡◌, refl, ap, arith, inl, inr, Option-cases, ℕ, zero, suc, [], ◌∷◌, Option,
  none, some, length,
}
use p2ser.Backend.Compose.Template
use p2ser.Backend.Compose.Template.{find_submatch, replace_all, value_or, submatch}
use p2ser.Converter.Interpolate
use p2ser.Converter.Interpolate.{
  match_at, reference, with_default, env_value, value_of, replace, take_name,
}
use p2ser.Converter.Interpolate.Encoded.{CharEncoding, encode}
use p2ser.Converter.Interpolate.Transcoded.{nothing, encode_env, interpolate-encode}
use p2ser.Dict.{Dict, get}
use p2ser.Text.{Text}

after_name_same : (s : Text) → Template.after_name s ≡ Interpolate.after_name s
unfolding Template.after_name Interpolate.after_name
after_name_same [] = refl
after_name_same (c ∷ s) = ground arith

submatch_same : (name : Text) (o : Option (Text × Text)) → submatch name o ≡ with_default name o
unfolding submatch with_default
submatch_same name none = refl
submatch_same name (some (fallback, rest)) = refl

braced_same : (o : Option (Text × Text)) → Template.braced o ≡ Interpolate.braced o
unfolding Template.braced Interpolate.braced
braced_same none = refl
braced_same (some (name, s)) =
    rw (after_name_same s) (submatch_same name (Interpolate.after_name s))

bare_same : (o : Option (Text × Text)) → Template.bare o ≡ Interpolate.bare o
unfolding Template.bare Interpolate.bare
bare_same none = refl
bare_same (some (name, rest)) = refl

find_submatch-match_at : (c : ℕ) (s : Text) → find_submatch c s ≡ match_at c s
unfolding find_submatch match_at reference
find_submatch-match_at c [] = ground arith
find_submatch-match_at c (d ∷ s) =
    rw (braced_same (take_name s), bare_same (take_name (d ∷ s))) refl

value_same :
    (env : Dict Text) (name fallback : Text)
    → value_or (get env name) fallback ≡ value_of nothing env name fallback
unfolding value_or value_of env_value
value_same env name fallback = elim (Option-cases (get env name)) [
  | inl e ↦ rw (e, value_of, env_value) refl
  | inr (value, e) ↦ rw (e, value_of, env_value) refl
]

replace_same :
    (env : Dict Text) (fuel : ℕ) (s : Text) → replace_all env fuel s ≡ replace nothing env fuel s
unfolding replace_all replace
replace_same env zero s = refl
replace_same env (suc fuel) [] = refl
replace_same env (suc fuel) (c ∷ s) =
    rw (find_submatch-match_at c s, replace_all, replace)
      (elim (Option-cases (match_at c s)) [
        | inl e ↦ rw (e, replace_all, replace) (ap (λ (r : Text). c ∷ r) (replace_same env fuel s))
        | inr ((name, fallback, rest), e) ↦
            rw (e, replace_all, replace)
              (rw (value_same env name fallback, replace_same env fuel rest) refl)
      ])

-- The names that are looked up in a text
unfoldable pub names_in : ℕ → Text → List Text
names_in zero s = []
names_in (suc fuel) [] = []
names_in (suc fuel) (c ∷ s) = elim (match_at c s) [
  | none ↦ names_in fuel s
  | some (name, fallback, rest) ↦ name ∷ names_in fuel rest
]

-- What is looked up in a text and is no name of the environment is not inherited by every object.
abbrev pub LooksUpOwn : (Text → Option Text) → Dict Text → ℕ → Text → Type 0
LooksUpOwn inherited env fuel s =
    All (λ name. get env name ≡ none → inherited name ≡ none) (names_in fuel s)

value_own :
    (inherited : Text → Option Text) (env : Dict Text) (name fallback : Text)
    → (get env name ≡ none → inherited name ≡ none)
    → value_of nothing env name fallback ≡ value_of inherited env name fallback
unfolding value_of env_value
value_own inherited env name fallback own = elim (Option-cases (get env name)) [
  | inl e ↦ rw (e, value_of, env_value) (rw (own e) refl)
  | inr (value, e) ↦ rw (e, value_of, env_value) refl
]

replace_own :
    (inherited : Text → Option Text) (env : Dict Text) (fuel : ℕ) (s : Text)
    → LooksUpOwn inherited env fuel s
    → replace nothing env fuel s ≡ replace inherited env fuel s
unfolding replace names_in
replace_own inherited env zero s h = refl
replace_own inherited env (suc fuel) [] h = refl
replace_own inherited env (suc fuel) (c ∷ s) h = elim (Option-cases (match_at c s)) [
  | inl e ↦
      rw (e, replace) (ap (λ r. c ∷ r) (replace_own inherited env fuel s (rw (e, names_in) at h)))
  | inr ((name, fallback, rest), e) ↦
      let (own, others) = rw (e, names_in) at h in
      rw (e, replace)
        (rw (value_own inherited env name fallback own, replace_own inherited env fuel rest others)
          refl)
]

-- The server, on the bytes of a text, and the page, on its UTF-16 units, replace the references to
-- the same text, each in its own encoding, where the environments say the same and what the page
-- looks up beyond its environment is not inherited by every object.
pub interpolate_same :
    (utf8 utf16 : CharEncoding) (inherited : Text → Option Text) (env : Dict Text) (s : Text)
    → LooksUpOwn inherited (encode_env utf16 env) (length (encode utf16 s)) (encode utf16 s)
    → (t : Text) × (Template.interpolate (encode_env utf8 env) (encode utf8 s) ≡ encode utf8 t)
      × (Interpolate.interpolate inherited (encode_env utf16 env) (encode utf16 s) ≡ encode utf16 t)
unfolding Template.interpolate Interpolate.interpolate
interpolate_same utf8 utf16 inherited env s own = (
  Interpolate.interpolate nothing env s,
  replace_same (encode_env utf8 env) (length (encode utf8 s)) (encode utf8 s)
      ∙ interpolate-encode utf8 env s,
  sym (replace_own inherited (encode_env utf16 env) (length (encode utf16 s)) (encode utf16 s) own)
      ∙ interpolate-encode utf16 env s,
)
