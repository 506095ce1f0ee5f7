-- ===== src/Tests/Encodings.antt =====
-- UTF-8 and UTF-16, and a text beyond ASCII on the server and on the page.
use p2ser.Base.{
  ◌≡◌, refl, arith, ℕ, ◌+◌, ◌-◌, ◌/◌, ◌%◌, ◌<◌, ◌≤◌, ltb, [], ◌∷◌, if◌then◌else◌, none, some,
  Option, length, All, Bool-cases, inl, inr,
}
use p2ser.Backend.Compose.Template as Template
use p2ser.Backend.Compose.Template.Same.{LooksUpOwn, names_in, interpolate_same}
use p2ser.Converter.Interpolate as Interpolate
use p2ser.Converter.Interpolate.{
  match_at, reference, take_name, is_name_start, after_name, after_colon, span_word, with_default,
  braced, bare,
}
use p2ser.Converter.Interpolate.Encoded.{CharEncoding, encode}
use p2ser.Converter.Interpolate.Transcoded.{encode_env}
use p2ser.Dict.{Dict, get}
use p2ser.Text.{Text, codes, equal, is_word, cut_at, cut_cons}

abbrev utf8_wide : ℕ → Text
utf8_wide c =
    if ltb c 0x800
    then (192 + c / 64) ∷ (128 + c % 64) ∷ []
    else if ltb c 0x10000
    then (224 + c / 4096) ∷ (128 + c / 64 % 64) ∷ (128 + c % 64) ∷ []
    else (240 + c / 262144) ∷ (128 + c / 4096 % 64) ∷ (128 + c / 64 % 64) ∷ (128 + c % 64) ∷ []

abbrev utf16_wide : ℕ → Text
utf16_wide c =
    if ltb c 0x10000
    then c ∷ []
    else (0xD800 + (c - 0x10000) / 1024) ∷ (0xDC00 + (c - 0x10000) % 1024) ∷ []

abbrev Wide : Text → Type 0
Wide e = (d : ℕ) × (ds : Text) × (e ≡ d ∷ ds) × All (λ x. 128 ≤ x) (d ∷ ds)

at_least : (n x : ℕ) → 128 ≤ n → 128 ≤ n + x
at_least n x h = omega (arith, h)

ascii_unit : (c : ℕ) (wide : Text) → c < 128 → (if ltb c 128 then c ∷ [] else wide) ≡ c ∷ []
ascii_unit c wide h = ground (arith, h)

if-Wide : (c : ℕ) (wide : Text) → 128 ≤ c → Wide wide → Wide (if ltb c 128 then c ∷ [] else wide)
if-Wide c wide h w = elim (Bool-cases (ltb c 128)) [
  | inl e ↦ absurd (ground (arith, e))
  | inr e ↦ rw e w
]

utf8-Wide : (c : ℕ) → Wide (utf8_wide c)
utf8-Wide c = elim (Bool-cases (ltb c 0x800)) [
  | inl e ↦ rw e (_, _, refl, (at_least 192 _ (omega arith), (at_least 128 _ (omega arith), tt)))
  | inr e ↦ rw e (elim (Bool-cases (ltb c 0x10000)) [
    | inl f ↦ rw f (
      _,
      _,
      refl,
      (
        at_least 224 _ (omega arith),
        (at_least 128 _ (omega arith), (at_least 128 _ (omega arith), tt)),
      ),
    )
    | inr f ↦ rw f (
      _,
      _,
      refl,
      (
        at_least 240 _ (omega arith),
        (
          at_least 128 _ (omega arith),
          (at_least 128 _ (omega arith), (at_least 128 _ (omega arith), tt)),
        ),
      ),
    )
  ])
]

utf16-Wide : (c : ℕ) → 128 ≤ c → Wide (utf16_wide c)
utf16-Wide c h = elim (Bool-cases (ltb c 0x10000)) [
  | inl e ↦ rw e (_, _, refl, (h, tt))
  | inr e ↦
      rw e (_, _, refl, (at_least 0xD800 _ (omega arith), (at_least 0xDC00 _ (omega arith), tt)))
]

abbrev utf8 : CharEncoding
utf8 = record {
  enc = λ c. if ltb c 128 then c ∷ [] else utf8_wide c;
  enc-ascii = λ c h. ascii_unit c (utf8_wide c) h;
  enc-wide = λ c h. if-Wide c (utf8_wide c) h (utf8-Wide c);
}

abbrev utf16 : CharEncoding
utf16 = record {
  enc = λ c. if ltb c 128 then c ∷ [] else utf16_wide c;
  enc-ascii = λ c h. ascii_unit c (utf16_wide c) h;
  enc-wide = λ c h. if-Wide c (utf16_wide c) h (utf16-Wide c h);
}

abbrev every_object : Text → Option Text
every_object name =
    if equal name (codes "constructor")
    then some (codes "function Object() { [native code] }")
    else none

abbrev city : Dict Text
city = (codes "CITY", codes "Київ") ∷ []

abbrev sentence : Text
sentence = codes "є ${CITY} 🙂 ${TAG:-1}"

sentence-LooksUpOwn :
    LooksUpOwn every_object
      (encode_env utf16 city)
      (length (encode utf16 sentence))
      (encode utf16 sentence)
unfolding names_in match_at reference take_name is_name_start after_name after_colon span_word
    is_word with_default braced bare cut_at cut_cons equal get
sentence-LooksUpOwn = (λ e. refl, (λ e. refl, tt))

interpolate_same_example :
    (t : Text) × (Template.interpolate (encode_env utf8 city) (encode utf8 sentence)
      ≡ encode utf8 t)
    × (Interpolate.interpolate every_object (encode_env utf16 city) (encode utf16 sentence)
        ≡ encode utf16 t)
interpolate_same_example =
    interpolate_same utf8 utf16 every_object city sentence sentence-LooksUpOwn
