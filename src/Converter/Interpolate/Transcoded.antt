-- ===== src/Converter/Interpolate/Transcoded.antt =====
-- The replacement of the references commutes with the encodings of texts.
use p2ser.Base.{
  ◌≡◌, refl, sym, ap, ◌∙◌, arith, inl, inr, Bool-cases, Option-cases, ℕ, zero, suc, ◌<◌, ◌≤◌, true,
  [], ◌∷◌, ◌++◌, ◌==◌, ◌&&◌, Option, none, some, All, length, if◌then◌else◌,
}
use p2ser.Dict.{Dict, get}
use p2ser.Text.{Text, equal, is_word, truthy_text}
use p2ser.Converter.Interpolate.{
  is_name_start, span_word, take_name, after_name, with_default, braced, bare, Reference, reference,
  match_at, env_value, value_of, interpolate,
}
use p2ser.Converter.Interpolate.Encoded.{
  CharEncoding, encode, encode-ascii, encode-append, match_at-encode, ascii_or_wide, wide_unit,
  encoded_reference,
}
use p2ser.Converter.Interpolate.Fuel.{interpolate-cons, interpolate-match, length-match_at}

abbrev IsAscii : Text → Type 0
IsAscii = All (λ c. c < 128)

abbrev NamedAscii : Option (Text × Text) → Type 0
NamedAscii none = Unit
NamedAscii (some (name, rest)) = IsAscii name

abbrev RefersAscii : Option Reference → Type 0
RefersAscii none = Unit
RefersAscii (some (name, fallback, rest)) = IsAscii name

word_ascii : (c : ℕ) → is_word c ≡ true → c < 128
unfolding is_word
word_ascii c h = ground (arith, h)

start_ascii : (c : ℕ) → is_name_start c ≡ true → c < 128
unfolding is_name_start
start_ascii c h = ground (arith, h)

span_word-IsAscii : (s : Text) → IsAscii (span_word s).0
unfolding span_word
span_word-IsAscii [] = tt
span_word-IsAscii (c ∷ s) = elim (Bool-cases (is_word c)) [
  | inl e ↦ rw e (word_ascii c e, span_word-IsAscii s)
  | inr e ↦ rw e tt
]

take_name-NamedAscii : (s : Text) → NamedAscii (take_name s)
unfolding take_name
take_name-NamedAscii [] = tt
take_name-NamedAscii (c ∷ s) = elim (Bool-cases (is_name_start c)) [
  | inl e ↦ rw e (start_ascii c e, span_word-IsAscii s)
  | inr e ↦ rw e tt
]

with_default-RefersAscii :
    (name : Text) (o : Option (Text × Text)) → IsAscii name → RefersAscii (with_default name o)
unfolding with_default
with_default-RefersAscii name none h = tt
with_default-RefersAscii name (some (fallback, rest)) h = h

braced-RefersAscii : (o : Option (Text × Text)) → NamedAscii o → RefersAscii (braced o)
unfolding braced
braced-RefersAscii none h = tt
braced-RefersAscii (some (name, s)) h = with_default-RefersAscii name (after_name s) h

bare-RefersAscii : (o : Option (Text × Text)) → NamedAscii o → RefersAscii (bare o)
unfolding bare
bare-RefersAscii none h = tt
bare-RefersAscii (some (name, rest)) h = h

match_at-RefersAscii : (c : ℕ) (s : Text) → RefersAscii (match_at c s)
unfolding match_at reference
match_at-RefersAscii c [] = elim (Bool-cases (c == b'$')) [ inl e ↦ rw e tt | inr e ↦ rw e tt ]
match_at-RefersAscii c (d ∷ s) = elim (Bool-cases (c == b'$')) [
  | inl e ↦ rw e (elim (Bool-cases (d == b'{')) [
    | inl f ↦ rw f (braced-RefersAscii (take_name s) (take_name-NamedAscii s))
    | inr f ↦ rw f (bare-RefersAscii (take_name (d ∷ s)) (take_name-NamedAscii (d ∷ s)))
  ])
  | inr e ↦ rw e tt
]

dollar :
    (c : ℕ) (s name fallback rest : Text) → match_at c s ≡ some (name, fallback, rest) → c < 128
unfolding match_at
dollar c s name fallback rest e = ground (arith, e)

-- Nothing is inherited, as by a map of Go.
abbrev pub nothing : Text → Option Text
nothing name = none

module _ (encoding : CharEncoding) where
  open encoding use {enc, enc-ascii, enc-wide}

  abbrev pub encode_env : Dict Text → Dict Text
  encode_env [] = []
  encode_env ((k, v) ∷ env) = (encode encoding k, encode encoding v) ∷ encode_env env

  equal-encode : (k name : Text) → IsAscii name → equal (encode encoding k) name ≡ equal k name
  unfolding equal
  equal-encode [] name h = refl
  equal-encode (c ∷ k) [] h = elim (ascii_or_wide c) [
    | inl a ↦ rw (encode-ascii encoding c k a) refl
    | inr a ↦ let (d, ds, e, ws) = enc-wide c a in rw e refl
  ]
  equal-encode (c ∷ k) (n ∷ name) (m, h) = elim (ascii_or_wide c) [
    | inl a ↦ rw (encode-ascii encoding c k a) (ap (λ b. c == n && b) (equal-encode k name h))
    | inr a ↦
        let (d, ds, e, (w, ws)) = enc-wide c a in rw (e, wide_unit d n w m, wide_unit c n a m) refl
  ]

  abbrev encoded_value : Option Text → Option Text
  encoded_value none = none
  encoded_value (some v) = some (encode encoding v)

  get-encode_env :
      (env : Dict Text) (name : Text)
      → IsAscii name
      → get (encode_env env) name ≡ encoded_value (get env name)
  unfolding get
  get-encode_env [] name h = refl
  get-encode_env ((k, v) ∷ env) name h =
      rw (equal-encode k name h) (elim (Bool-cases (equal k name)) [
        | inl e ↦ rw e refl
        | inr e ↦ rw e (get-encode_env env name h)
      ])

  truthy_text-encode : (v : Text) → truthy_text (encode encoding v) ≡ truthy_text v
  truthy_text-encode [] = refl
  truthy_text-encode (c ∷ v) = elim (ascii_or_wide c) [
    | inl a ↦ rw (encode-ascii encoding c v a) refl
    | inr a ↦ let (d, ds, e, ws) = enc-wide c a in rw e refl
  ]

  abbrev value_in : Option Text → Text
  value_in o = elim o [ some v ↦ v | none ↦ [] ]

  value_in-encoded : (o : Option Text) → value_in (encoded_value o) ≡ encode encoding (value_in o)
  value_in-encoded none = refl
  value_in-encoded (some v) = refl

  abbrev chosen : Text → Text → Text
  chosen fallback v = if truthy_text v then v else fallback

  chosen-encode :
      (fallback v : Text)
      → chosen (encode encoding fallback) (encode encoding v) ≡ encode encoding (chosen fallback v)
  chosen-encode fallback v =
      rw (truthy_text-encode v)
        (elim (Bool-cases (truthy_text v)) [ inl t ↦ rw t refl | inr t ↦ rw t refl ])

  value_of-encode :
      (env : Dict Text) (name fallback : Text)
      → IsAscii name
      → value_of nothing (encode_env env) name (encode encoding fallback)
        ≡ encode encoding (value_of nothing env name fallback)
  unfolding value_of env_value
  value_of-encode env name fallback h =
      ap (λ o. chosen (encode encoding fallback) (value_in o)) (get-encode_env env name h)
      ∙ ap (chosen (encode encoding fallback)) (value_in-encoded (get env name))
      ∙ chosen-encode fallback (value_in (get env name))

  -- Units beyond ASCII are no reference.
  interpolate-run :
      (env : Dict Text) (ds t : Text)
      → All (λ d. 128 ≤ d) ds
      → interpolate nothing env (ds ++ t) ≡ ds ++ interpolate nothing env t
  interpolate-run env [] t h = refl
  interpolate-run env (d ∷ ds) t (w, h) =
      interpolate-cons nothing env d (ds ++ t)
        (unfold match_at in rw (wide_unit d b'$' w (omega arith)) refl)
      ∙ ap (◌∷◌ d) (interpolate-run env ds t h)

  encode-cons :
      (env : Dict Text) (c : ℕ) (s : Text)
      → match_at c s ≡ none
      → interpolate nothing (encode_env env) (encode encoding s)
        ≡ encode encoding (interpolate nothing env s)
      → interpolate nothing (encode_env env) (encode encoding (c ∷ s))
        ≡ encode encoding (interpolate nothing env (c ∷ s))
  encode-cons env c s n same =
      let apart = ap (encode encoding) (interpolate-cons nothing env c s n) in
      elim (ascii_or_wide c) [
        | inl a ↦
            ap (interpolate nothing (encode_env env)) (encode-ascii encoding c s a)
            ∙ interpolate-cons nothing (encode_env env) c (encode encoding s)
                (match_at-encode encoding c s ∙ ap (encoded_reference encoding) n)
            ∙ ap (◌∷◌ c) same
            ∙ sym (encode-ascii encoding c (interpolate nothing env s) a)
            ∙ sym apart
        | inr a ↦
            let (d, ds, e, ws) = enc-wide c a in
            interpolate-run (encode_env env) (enc c) (encode encoding s) (rw e ws)
            ∙ ap (λ t. enc c ++ t) same
            ∙ sym apart
      ]

  encode-match :
      (env : Dict Text) (c : ℕ) (s name fallback rest : Text)
      → match_at c s ≡ some (name, fallback, rest)
      → interpolate nothing (encode_env env) (encode encoding rest)
        ≡ encode encoding (interpolate nothing env rest)
      → interpolate nothing (encode_env env) (encode encoding (c ∷ s))
        ≡ encode encoding (interpolate nothing env (c ∷ s))
  encode-match env c s name fallback rest m same =
      let value = value_of nothing env name fallback in
      ap (interpolate nothing (encode_env env))
        (encode-ascii encoding c s (dollar c s name fallback rest m))
      ∙ interpolate-match nothing (encode_env env) c (encode encoding s) name
          (encode encoding fallback) (encode encoding rest)
          (match_at-encode encoding c s ∙ ap (encoded_reference encoding) m)
      ∙ ap (λ t. t ++ interpolate nothing (encode_env env) (encode encoding rest))
          (value_of-encode env name fallback (rw m at (match_at-RefersAscii c s)))
      ∙ ap (λ t. encode encoding value ++ t) same
      ∙ sym (encode-append encoding value (interpolate nothing env rest))
      ∙ ap (encode encoding) (sym (interpolate-match nothing env c s name fallback rest m))

  encode_within :
      (env : Dict Text) (n : ℕ) (s : Text)
      → length s ≤ n
      → interpolate nothing (encode_env env) (encode encoding s)
        ≡ encode encoding (interpolate nothing env s)
  encode_within env n [] h = unfold interpolate in refl
  encode_within env zero (c ∷ s) h = absurd (omega (arith, h))
  encode_within env (suc n) (c ∷ s) h = elim (Option-cases (match_at c s)) [
    | inl e ↦ encode-cons env c s e (encode_within env n s (omega (arith, h)))
    | inr ((name, fallback, rest), e) ↦
        encode-match env c s name fallback rest e
          (encode_within env n rest (omega (arith, h, length-match_at c s name fallback rest e)))
  ]

  -- What an encoding writes of a text and of the environment is replaced by what it writes of the
  -- result.
  pub interpolate-encode :
      (env : Dict Text) (s : Text)
      → interpolate nothing (encode_env env) (encode encoding s)
        ≡ encode encoding (interpolate nothing env s)
  interpolate-encode env s = encode_within env (length s) s (omega arith)
