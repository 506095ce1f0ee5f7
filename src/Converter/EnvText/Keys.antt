-- ===== src/Converter/EnvText/Keys.antt =====
-- What `parseEnvText` returns for any text at all: names that a line can set, each once, and
-- values on one line; so writing the result and parsing it again changes nothing.
use p2ser.Base.{
  ℕ, ◌≡◌, ◌≢◌, ap, ◌∙◌, arith, List, [], ◌∷◌, ◌==◌, Option, some, none, All, false, inl, inr,
  Bool-cases, ◌||◌,
}
use p2ser.Dict.Distinct.{Distinct, put-Distinct, All-put, put_all-Distinct}
use p2ser.Dict.{Dict, put}
use p2ser.Text.Equality.{equal_iff}
use p2ser.Text.Split.{Lacks, CutFits, cut_at-CutFits, split-Lacks}
use p2ser.Text.Trim.{
  StartsSolid, trim-StartsSolid, trim-solid, trim_end-solid, trim_end_idem, All-trim_start,
  All-trim_end,
}
use p2ser.Text.{Text, is_space, trim, trim_end, split, cut_at, cut_cons, drop_last}
use p2ser.Converter.EnvText.Lines.{IsKey, EntryFits, print_env, parse_env-print_env}
use p2ser.Converter.EnvText.{
  inner, quoted_by, unquote, assign, read_trimmed, read_line, read_lines, parse_env,
}

abbrev pub IsEnv : Dict Text → Type 0
IsEnv d = All EntryFits d × Distinct d

abbrev KeyUnit : ℕ → Type 0
KeyUnit d = (d ≢ b'=') × (d ≢ b'\n')

trim-Lacks : (c : ℕ) (s : Text) → Lacks c s → Lacks c (trim s)
unfolding trim
trim-Lacks c s h = All-trim_end _ _ (All-trim_start _ s h)

drop_last-Lacks : (c : ℕ) (s : Text) → Lacks c s → Lacks c (drop_last s)
unfolding drop_last
drop_last-Lacks c [] h = tt
drop_last-Lacks c (d ∷ []) h = tt
drop_last-Lacks c (d ∷ e ∷ s) (p, h) = (p, drop_last-Lacks c (e ∷ s) h)

inner-Lacks : (c : ℕ) (s : Text) → Lacks c s → Lacks c (inner s)
unfolding inner
inner-Lacks c [] h = tt
inner-Lacks c (d ∷ s) (p, h) = drop_last-Lacks c s h

unquote-Lacks : (c : ℕ) (s : Text) → Lacks c s → Lacks c (unquote s)
unfolding unquote
unquote-Lacks c s h = elim (Bool-cases (quoted_by b'"' s || quoted_by b'\'' s)) [
  | inl e ↦ rw e (inner-Lacks c s h)
  | inr e ↦ rw e h
]

All-fst : (s : Text) → All KeyUnit s → Lacks b'=' s
All-fst [] h = tt
All-fst (c ∷ s) (p, h) = (p.0, All-fst s h)

All-snd : (s : Text) → All KeyUnit s → Lacks b'\n' s
All-snd [] h = tt
All-snd (c ∷ s) (p, h) = (p.1, All-snd s h)

trim-IsKey :
    (c : ℕ) (s : Text) → is_space c ≡ false → c ≢ b'#' → All KeyUnit (c ∷ s) → IsKey (trim (c ∷ s))
trim-IsKey c s solid hash (p, h) =
    let units = All-trim_end KeyUnit s h in
    rw (trim-solid c s solid) (record {
      starts = (solid, hash);
      trimmed = trim_end-solid c (trim_end s) solid ∙ ap (◌∷◌ c) (trim_end_idem s);
      no_equals = (p.0, All-fst _ units);
      no_break = (p.1, All-snd _ units);
    })

put-IsEnv :
    (vars : Dict Text) (k v : Text) → IsKey k → Lacks b'\n' v → IsEnv vars → IsEnv (put vars k v)
put-IsEnv vars k v key value (fits, distinct) = (
  All-put EntryFits vars k v (λ j e. (rw ((equal_iff j k).0 e) key, value)) fits,
  put-Distinct vars k v distinct,
)

assign-IsEnv :
    (vars : Dict Text) (c : ℕ) (r : Option (Text × Text))
    → is_space c ≡ false
    → c ≢ b'#'
    → KeyUnit c
    → CutFits KeyUnit (λ d. d ≢ b'\n') r
    → IsEnv vars
    → IsEnv (assign vars (cut_cons c r))
unfolding assign cut_cons
assign-IsEnv vars c none solid hash unit h env = env
assign-IsEnv vars c (some (before, after)) solid hash unit (b, a) env =
    put-IsEnv vars _ _ (trim-IsKey c before solid hash (unit, b))
      (unquote-Lacks b'\n' _ (trim-Lacks b'\n' after a)) env

read_trimmed-IsEnv :
    (vars : Dict Text) (line : Text)
    → StartsSolid line
    → Lacks b'\n' line
    → IsEnv vars
    → IsEnv (read_trimmed vars line)
unfolding read_trimmed
read_trimmed-IsEnv vars [] solid h env = env
read_trimmed-IsEnv vars (c ∷ s) solid (p, h) env = elim (Bool-cases (c == b'#')) [
  | inl e ↦ rw e env
  | inr e ↦ rw e (elim (Bool-cases (c == b'=')) [
    | inl f ↦ unfold cut_at in rw f env
    | inr f ↦
        unfold cut_at in
        rw f (
          assign-IsEnv vars c (cut_at b'=' s) solid (ground arith) (ground arith, p)
            (cut_at-CutFits KeyUnit (λ d. d ≢ b'\n') b'=' s h (λ d n q. (ground arith, q))) env)
  ])
]

read_line-IsEnv :
    (vars : Dict Text) (line : Text) → Lacks b'\n' line → IsEnv vars → IsEnv (read_line vars line)
unfolding read_line
read_line-IsEnv vars line h env =
    read_trimmed-IsEnv vars (trim line) (trim-StartsSolid line) (trim-Lacks b'\n' line h) env

read_lines-IsEnv :
    (vars : Dict Text) (lines : List Text)
    → All (Lacks b'\n') lines
    → IsEnv vars
    → IsEnv (read_lines vars lines)
unfolding read_lines
read_lines-IsEnv vars [] h env = env
read_lines-IsEnv vars (line ∷ lines) (p, h) env =
    read_lines-IsEnv (read_line vars line) lines h (read_line-IsEnv vars line p env)

-- Every name in the result of `parseEnvText` begins with a unit that is no white space and no `#`,
-- has no white space at its end and holds neither `=` nor a line break; it stands there once, and
-- its value is on one line.
pub parse_env-IsEnv : (text : Text) → IsEnv (parse_env text)
unfolding parse_env
parse_env-IsEnv text = read_lines-IsEnv [] (split b'\n' text) (split-Lacks b'\n' text) (tt, tt)

-- What was parsed, written as `KEY="value"` lines and parsed again, is the same map.
pub parse_env-print_env-parse_env :
    (text : Text) → parse_env (print_env (parse_env text)) ≡ parse_env text
parse_env-print_env-parse_env text =
    let (fits, distinct) = parse_env-IsEnv text in
    parse_env-print_env (parse_env text) fits ∙ put_all-Distinct (parse_env text) distinct
