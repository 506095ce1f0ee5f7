-- ===== src/Backend/EnvFile/Written.antt =====
-- What the builder reads of the variables that a request sets.
use p2ser.Base.{
  ℕ, ◌≡◌, ◌≢◌, ◌||◌, refl, ap, ◌∙◌, arith, List, [], ◌∷◌, ◌++◌, ◌==◌, All, All-append, All-mono,
  true, false, if◌then◌else◌, Bool-cases, inl, inr, some, none,
}
use p2ser.Dict.Distinct.{Distinct, put_all, put_all-Distinct}
use p2ser.Dict.{Dict, put, get}
use p2ser.Text.Split.{Lacks, cut_at-append, split-append, split_parts-Lacks}
use p2ser.Text.{Text, is_word, split, split_parts}
use p2ser.Backend.EnvFile.{
  is_white, trim_space, trim_left, trim_right, set_parts, parse_trimmed, parse_lines,
  parse_env_file, is_word_only, valid_key, sanitize_val, env_content,
}
use p2ser.Backend.EnvFile.Trim.{
  trim_right-solid, trim_right-append, trim_space-trim_right, trim_space-solid,
}

word-solid : (c : ℕ) → is_word c ≡ true → is_white c ≡ false
unfolding is_word is_white
word-solid c h = ground (arith, h)

word-ne : (c : ℕ) → is_word c ≡ true → (c ≢ b'=') × (c ≢ b'#') × (c ≢ b'\n')
unfolding is_word
word-ne c h = ground (arith, h)

abbrev Words : Text → Type 0
Words = All (λ c. is_word c ≡ true)

Words-trim_right : (s : Text) → Words s → trim_right s ≡ s
Words-trim_right [] h = unfold trim_right in refl
Words-trim_right (c ∷ s) (w, h) =
    trim_right-solid c s (word-solid c w) ∙ ap (◌∷◌ c) (Words-trim_right s h)

is_word_only-Words : (s : Text) → is_word_only s ≡ true → Words s
unfolding is_word_only
is_word_only-Words [] h = tt
is_word_only-Words (c ∷ s) h = (ground (arith, h), is_word_only-Words s (ground (arith, h)))

-- A line for one variable, with the key `c ∷ s`
module _ (c : ℕ) (s : Text) (valid : valid_key (c ∷ s) ≡ true) where
  first_word : is_word c ≡ true
  unfolding valid_key
  first_word = ground (arith, valid)

  words : Words (c ∷ s)
  unfolding valid_key
  words = (first_word, is_word_only-Words s (ground (arith, valid)))

  trim_space-key : trim_space (c ∷ s) ≡ c ∷ s
  trim_space-key = trim_space-solid c s (word-solid c first_word) ∙ Words-trim_right (c ∷ s) words

  key-Lacks : Lacks b'=' (c ∷ s)
  key-Lacks = All-mono _ _ (c ∷ s) (λ x w. (word-ne x w).0) words

  trim_space-line : (v : Text) → trim_space ((c ∷ s) ++ b'=' ∷ v) ≡ (c ∷ s) ++ b'=' ∷ trim_right v
  unfolding is_white
  trim_space-line v =
      trim_space-solid c (s ++ b'=' ∷ v) (word-solid c first_word)
      ∙ trim_right-append (c ∷ s) b'=' v refl

  no_hash : (c == b'#') ≡ false
  no_hash = let ne = (word-ne c first_word).1 in ground arith

  parse_trimmed-line :
      (vars : Dict Text) (v : Text)
      → parse_trimmed vars ((c ∷ s) ++ b'=' ∷ trim_right v) ≡ put vars (c ∷ s) (trim_space v)
  unfolding parse_trimmed set_parts
  parse_trimmed-line vars v =
      rw
        (
          no_hash,
          cut_at-append b'=' (c ∷ s) (trim_right v) key-Lacks,
          trim_space-key,
          trim_space-trim_right v,
        )
        refl

  line-Lacks : (v : Text) → Lacks b'\n' v → Lacks b'\n' ((c ∷ s) ++ b'=' ∷ v)
  line-Lacks v h =
      All-append _ (c ∷ s) (b'=' ∷ v) (All-mono _ _ (c ∷ s) (λ x w. (word-ne x w).2) words)
        (omega arith, h)

  parse_lines-line :
      (vars : Dict Text) (v rest : Text)
      → Lacks b'\n' v
      → parse_lines vars (split b'\n' (((c ∷ s) ++ b'=' ∷ v) ++ b'\n' ∷ rest))
        ≡ parse_lines (put vars (c ∷ s) (trim_space v)) (split b'\n' rest)
  unfolding parse_lines
  parse_lines-line vars v rest h =
      let line = (c ∷ s) ++ b'=' ∷ v in
      ap (parse_lines vars) (
        split-append b'\n' line rest
        ∙ ap (λ (p : Text × List Text). (p.0 ∷ p.1) ++ split b'\n' rest)
            (split_parts-Lacks b'\n' line (line-Lacks v h)))
      ∙ ap (λ d. parse_lines d (split b'\n' rest))
          (ap (parse_trimmed vars) (trim_space-line v) ∙ parse_trimmed-line vars v)

sanitize_val-Lacks : (v : Text) → Lacks b'\n' (sanitize_val v)
unfolding sanitize_val
sanitize_val-Lacks [] = tt
sanitize_val-Lacks (c ∷ v) = elim (Bool-cases (c == b'\n' || c == b'\r')) [
  | inl e ↦ rw e (sanitize_val-Lacks v)
  | inr e ↦ rw e (ground (arith, e), sanitize_val-Lacks v)
]

-- The entries with a valid key, their values without line breaks and outer white space.
abbrev pub kept : Dict Text → Dict Text
kept [] = []
kept ((k, v) ∷ env) =
    let rest = kept env in if valid_key k then (k, trim_space (sanitize_val v)) ∷ rest else rest

parse_lines-nil : (vars : Dict Text) → parse_lines vars (split b'\n' []) ≡ vars
unfolding parse_lines parse_trimmed trim_space split_parts trim_right trim_left
parse_lines-nil vars = refl

parse_lines-env_content :
    (vars env : Dict Text)
    → parse_lines vars (split b'\n' (env_content env)) ≡ put_all vars (kept env)
unfolding env_content
parse_lines-env_content vars [] = parse_lines-nil vars
parse_lines-env_content vars (([], v) ∷ env) = unfold valid_key in parse_lines-env_content vars env
parse_lines-env_content vars ((c ∷ s, v) ∷ env) = elim (Bool-cases (valid_key (c ∷ s))) [
  | inl e ↦ rw e (
      parse_lines-line c s e vars (sanitize_val v) (env_content env) (sanitize_val-Lacks v)
      ∙ parse_lines-env_content (put vars (c ∷ s) (trim_space (sanitize_val v))) env)
  | inr e ↦ rw e (parse_lines-env_content vars env)
]

get-kept : (env : Dict Text) (k : Text) → get env k ≡ none → get (kept env) k ≡ none
unfolding get
get-kept [] k h = refl
get-kept ((j, v) ∷ env) k h = ground (arith, get-kept env k)

kept-Distinct : (env : Dict Text) → Distinct env → Distinct (kept env)
kept-Distinct [] h = tt
kept-Distinct ((k, v) ∷ env) (fresh, h) = elim (Bool-cases (valid_key k)) [
  | inl e ↦ rw e (get-kept env k fresh, kept-Distinct env h)
  | inr e ↦ rw e (kept-Distinct env h)
]

-- The builder reads the variables of a request, which have distinct names and come in any order, as
-- the entries whose name is valid, with their values without line breaks and outer white space: no
-- value sets another variable.
pub parse_env_file-env_content :
    (env : Dict Text) → Distinct env → parse_env_file (some (env_content env)) ≡ kept env
unfolding parse_env_file
parse_env_file-env_content env h =
    parse_lines-env_content [] env ∙ put_all-Distinct (kept env) (kept-Distinct env h)
