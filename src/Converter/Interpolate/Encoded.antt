-- ===== src/Converter/Interpolate/Encoded.antt =====
-- Texts as their characters, and how the units of an encoding write them.
use p2ser.Base.{
  ◌≡◌, ◌≢◌, refl, sym, ap, ◌∙◌, arith, inl, inr, ◌⊎◌, Bool-cases, ℕ, ◌<◌, ◌≤◌, ltb, false, [], ◌∷◌,
  ◌++◌, ◌==◌, Option, none, some, All, All-mono, append_assoc,
}
use p2ser.Text.{Text, is_word, cut_at, cut_cons}
use p2ser.Converter.Interpolate.{
  is_name_start, span_word, take_name, after_colon, after_name, with_default, braced, bare,
  Reference, reference, match_at,
}

-- An encoding of characters by units, such as UTF-8 and UTF-16: the characters of ASCII are units of
-- their own, and the others are written with units that are beyond these.
pub record CharEncoding : Type 0 where
  pub enc : ℕ → Text
  pub enc-ascii : (c : ℕ) → c < 128 → enc c ≡ c ∷ []
  pub enc-wide :
      (c : ℕ) → 128 ≤ c → (d : ℕ) × (ds : Text) × (enc c ≡ d ∷ ds) × All (λ x. 128 ≤ x) (d ∷ ds)

pub ascii_or_wide : (c : ℕ) → (c < 128) ⊎ (128 ≤ c)
ascii_or_wide c = elim (Bool-cases (ltb c 128)) [
  | inl e ↦ inl (ground (arith, e))
  | inr e ↦ inr (ground (arith, e))
]

-- Behind some units that are not the one that is sought
abbrev behind_run : Text → Option (Text × Text) → Option (Text × Text)
behind_run ds none = none
behind_run ds (some (a, b)) = some (ds ++ a, b)

behind_run-nil : (o : Option (Text × Text)) → o ≡ behind_run [] o
behind_run-nil none = refl
behind_run-nil (some (a, b)) = refl

cut_cons-behind_run :
    (d : ℕ) (ds : Text) (o : Option (Text × Text))
    → cut_cons d (behind_run ds o) ≡ behind_run (d ∷ ds) o
unfolding cut_cons
cut_cons-behind_run d ds none = refl
cut_cons-behind_run d ds (some (a, b)) = refl

other_unit : (d q : ℕ) → d ≢ q → (d == q) ≡ false
other_unit d q n = ground arith

cut_at-run :
    (q : ℕ) (ds t : Text) → All (λ d. d ≢ q) ds → cut_at q (ds ++ t) ≡ behind_run ds (cut_at q t)
unfolding cut_at
cut_at-run q [] t h = behind_run-nil (cut_at q t)
cut_at-run q (d ∷ ds) t (n, h) =
    rw (other_unit d q n)
      (ap (cut_cons d) (cut_at-run q ds t h) ∙ cut_cons-behind_run d ds (cut_at q t))

wide_word : (d : ℕ) → 128 ≤ d → is_word d ≡ false
unfolding is_word
wide_word d h = ground arith

wide_start : (d : ℕ) → 128 ≤ d → is_name_start d ≡ false
unfolding is_name_start
wide_start d h = ground arith

wide_other : (x q : ℕ) → 128 ≤ x → q < 128 → x ≢ q
wide_other x q w small e = omega (arith, w, small, e)

pub wide_unit : (x q : ℕ) → 128 ≤ x → q < 128 → (x == q) ≡ false
wide_unit x q w small = other_unit x q (wide_other x q w small)

module _ (encoding : CharEncoding) where
  open encoding use {enc, enc-ascii, enc-wide}

  abbrev pub encode : Text → Text
  encode [] = []
  encode (c ∷ s) = enc c ++ encode s

  pub encode-ascii : (c : ℕ) (s : Text) → c < 128 → encode (c ∷ s) ≡ c ∷ encode s
  encode-ascii c s h = ap (λ t. t ++ encode s) (enc-ascii c h)

  pub encode-append : (s t : Text) → encode (s ++ t) ≡ encode s ++ encode t
  encode-append [] t = refl
  encode-append (c ∷ s) t =
      ap (λ u. enc c ++ u) (encode-append s t) ∙ sym (append_assoc (enc c) (encode s) (encode t))

  abbrev encoded_behind : Option (Text × Text) → Option (Text × Text)
  encoded_behind none = none
  encoded_behind (some (word, rest)) = some (word, encode rest)

  abbrev encoded_pair : Option (Text × Text) → Option (Text × Text)
  encoded_pair none = none
  encoded_pair (some (a, b)) = some (encode a, encode b)

  abbrev pub encoded_reference : Option Reference → Option Reference
  encoded_reference none = none
  encoded_reference (some (name, fallback, rest)) = some (name, encode fallback, encode rest)

  span_word-encode : (s : Text) → span_word (encode s) ≡ ((span_word s).0, encode (span_word s).1)
  unfolding span_word
  span_word-encode [] = refl
  span_word-encode (c ∷ s) = elim (ascii_or_wide c) [
    | inl h ↦
        rw (encode-ascii c s h, span_word-encode s)
          (elim (Bool-cases (is_word c)) [
            | inl e ↦ rw e refl
            | inr e ↦ rw e (ap (λ t. ([], t)) (sym (encode-ascii c s h)))
          ])
    | inr h ↦
        let (d, ds, e, (w, ws)) = enc-wide c h in
        rw (e, wide_word d w, wide_word c h) (ap (λ t. ([], t ++ encode s)) (sym e))
  ]

  take_name-encode : (s : Text) → take_name (encode s) ≡ encoded_behind (take_name s)
  unfolding take_name
  take_name-encode [] = refl
  take_name-encode (c ∷ s) = elim (ascii_or_wide c) [
    | inl h ↦
        rw (encode-ascii c s h, span_word-encode s)
          (elim (Bool-cases (is_name_start c)) [ inl e ↦ rw e refl | inr e ↦ rw e refl ])
    | inr h ↦ let (d, ds, e, (w, ws)) = enc-wide c h in rw (e, wide_start d w, wide_start c h) refl
  ]

  enc-Lacks : (q c : ℕ) → q < 128 → c ≢ q → All (λ d. d ≢ q) (enc c)
  enc-Lacks q c small n = elim (ascii_or_wide c) [
    | inl h ↦ rw (enc-ascii c h) (n, tt)
    | inr h ↦
        let (d, ds, e, ws) = enc-wide c h in
        rw e (All-mono (λ x. 128 ≤ x) (λ x. x ≢ q) (d ∷ ds) (λ x w. wide_other x q w small) ws)
  ]

  encoded_pair-cut_cons :
      (c : ℕ) (o : Option (Text × Text))
      → behind_run (enc c) (encoded_pair o) ≡ encoded_pair (cut_cons c o)
  unfolding cut_cons
  encoded_pair-cut_cons c none = refl
  encoded_pair-cut_cons c (some (a, b)) = refl

  cut_at-encode : (q : ℕ) (s : Text) → q < 128 → cut_at q (encode s) ≡ encoded_pair (cut_at q s)
  unfolding cut_at
  cut_at-encode q [] small = refl
  cut_at-encode q (c ∷ s) small = elim (Bool-cases (c == q)) [
    | inl e ↦ rw (encode-ascii c s (ground arith), e) refl
    | inr e ↦ rw e (
        cut_at-run q (enc c) (encode s) (enc-Lacks q c small (λ same. ground arith))
        ∙ ap (behind_run (enc c)) (cut_at-encode q s small)
        ∙ encoded_pair-cut_cons c (cut_at q s))
  ]

  after_colon-encode : (s : Text) → after_colon (encode s) ≡ encoded_pair (after_colon s)
  unfolding after_colon
  after_colon-encode [] = refl
  after_colon-encode (c ∷ s) = elim (ascii_or_wide c) [
    | inl h ↦
        rw (encode-ascii c s h, cut_at-encode b'}' s (omega arith))
          (elim (Bool-cases (c == b'-')) [ inl e ↦ rw e refl | inr e ↦ rw e refl ])
    | inr h ↦
        let (d, ds, e, (w, ws)) = enc-wide c h in
        rw (e, wide_unit d b'-' w (omega arith), wide_unit c b'-' h (omega arith)) refl
  ]

  after_name-encode : (s : Text) → after_name (encode s) ≡ encoded_pair (after_name s)
  unfolding after_name
  after_name-encode [] = refl
  after_name-encode (c ∷ s) = elim (ascii_or_wide c) [
    | inl h ↦
        rw (encode-ascii c s h, cut_at-encode b'}' s (omega arith), after_colon-encode s)
          (elim (Bool-cases (c == b'}')) [
            | inl e ↦ rw e refl
            | inr e ↦ rw e (elim (Bool-cases (c == b'-')) [
              | inl f ↦ rw f refl
              | inr f ↦
                  rw f (elim (Bool-cases (c == b':')) [ inl g ↦ rw g refl | inr g ↦ rw g refl ])
            ])
          ])
    | inr h ↦
        let (d, ds, e, (w, ws)) = enc-wide c h in
        rw
          (
            e,
            wide_unit d b'}' w (omega arith),
            wide_unit d b'-' w (omega arith),
            wide_unit d b':' w (omega arith),
            wide_unit c b'}' h (omega arith),
            wide_unit c b'-' h (omega arith),
            wide_unit c b':' h (omega arith),
          )
          refl
  ]

  with_default-encode :
      (name : Text) (o : Option (Text × Text))
      → with_default name (encoded_pair o) ≡ encoded_reference (with_default name o)
  unfolding with_default
  with_default-encode name none = refl
  with_default-encode name (some (fallback, rest)) = refl

  braced-encode :
      (o : Option (Text × Text)) → braced (encoded_behind o) ≡ encoded_reference (braced o)
  unfolding braced
  braced-encode none = refl
  braced-encode (some (name, s)) =
      ap (with_default name) (after_name-encode s) ∙ with_default-encode name (after_name s)

  bare-encode : (o : Option (Text × Text)) → bare (encoded_behind o) ≡ encoded_reference (bare o)
  unfolding bare
  bare-encode none = refl
  bare-encode (some (name, rest)) = refl

  reference-encode : (s : Text) → reference (encode s) ≡ encoded_reference (reference s)
  unfolding reference
  reference-encode [] = refl
  reference-encode (c ∷ s) =
      let named = ap bare (take_name-encode (c ∷ s)) ∙ bare-encode (take_name (c ∷ s)) in
      elim (ascii_or_wide c) [
        | inl h ↦ elim (Bool-cases (c == b'{')) [
          | inl e ↦
              rw (encode-ascii c s h, e)
                (ap braced (take_name-encode s) ∙ braced-encode (take_name s))
          | inr e ↦
              rw (encode-ascii c s h, e) (ap bare (ap take_name (sym (encode-ascii c s h))) ∙ named)
        ]
        | inr h ↦
            let (d, ds, e, (w, ws)) = enc-wide c h in
            rw (e, wide_unit d b'{' w (omega arith), wide_unit c b'{' h (omega arith))
              (ap bare (ap take_name (ap (λ t. t ++ encode s) (sym e))) ∙ named)
      ]

  pub match_at-encode :
      (c : ℕ) (s : Text) → match_at c (encode s) ≡ encoded_reference (match_at c s)
  unfolding match_at
  match_at-encode c s = elim (Bool-cases (c == b'$')) [
    | inl e ↦ rw e (reference-encode s)
    | inr e ↦ rw e refl
  ]
