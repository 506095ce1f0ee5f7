-- ===== src/Converter/EnvText/Lines.antt =====
-- `parseEnvText` reads back a file that is written from keys and quoted values.
use p2ser.Base.{
  ℕ, ◌≡◌, ◌≢◌, refl, ap, ◌∙◌, sym, arith, List, [], ◌∷◌, ◌++◌, ◌==◌, All, All-append, true, false,
  append_assoc,
}
use p2ser.Dict.Distinct.{put_all}
use p2ser.Dict.{Dict, put}
use p2ser.Text.Split.{Lacks, cut_at-append, split-append, split_parts-Lacks}
use p2ser.Text.Trim.{trim-solid, trim_end-solid, trim_end-append}
use p2ser.Text.{
  Text, is_space, trim, trim_start, trim_end, split, split_parts, drop_last, ends_with,
}
use p2ser.Converter.EnvText.{inner, unquote, read_trimmed, read_line, read_lines, parse_env}

abbrev pub StartsKey : Text → Type 0
StartsKey [] = ⊥
StartsKey (c ∷ s) = (is_space c ≡ false) × (c ≢ b'#')

-- A name that a line can set: it begins with a unit that is no white space and no `#`, has no
-- white space at its end, and holds neither `=` nor a line break.
pub record IsKey (k : Text) : Type 0 where
  pub starts : StartsKey k
  pub trimmed : trim_end k ≡ k
  pub no_equals : Lacks b'=' k
  pub no_break : Lacks b'\n' k

abbrev pub EntryFits : Text × Text → Type 0
EntryFits (k, v) = IsKey k × Lacks b'\n' v

abbrev pub quote : Text → Text
quote v = (b'"' ∷ v) ++ b'"' ∷ []

-- `KEY="value"`
abbrev pub print_entry : Text → Text → Text
print_entry k v = k ++ b'=' ∷ quote v

abbrev pub print_env : Dict Text → Text
print_env [] = []
print_env ((k, v) ∷ d) = print_entry k v ++ b'\n' ∷ print_env d

drop_last-append : (v : Text) (c : ℕ) → drop_last (v ++ c ∷ []) ≡ v
unfolding drop_last
drop_last-append [] c = refl
drop_last-append (d ∷ []) c = refl
drop_last-append (d ∷ e ∷ v) c = ap (◌∷◌ d) (drop_last-append (e ∷ v) c)

ends_with-append : (s : Text) (c : ℕ) → ends_with c (s ++ c ∷ []) ≡ true
unfolding ends_with
ends_with-append [] c = ground arith
ends_with-append (d ∷ []) c = ends_with-append [] c
ends_with-append (d ∷ e ∷ s) c = ends_with-append (e ∷ s) c

unquote-quote : (v : Text) → unquote (quote v) ≡ v
unfolding unquote inner
unquote-quote v = rw (ends_with-append (b'"' ∷ v) b'"') (drop_last-append v b'"')

trim-quote : (v : Text) → trim (quote v) ≡ quote v
unfolding is_space
trim-quote v = trim-solid b'"' (v ++ b'"' ∷ []) refl ∙ ap (◌∷◌ b'"') (trim_end-append v b'"' refl)

pub trim-IsKey : (k : Text) → IsKey k → trim k ≡ k
trim-IsKey [] h = absurd h.starts
trim-IsKey (c ∷ s) h = trim-solid c s h.starts.0 ∙ sym (trim_end-solid c s h.starts.0) ∙ h.trimmed

trim-print_entry : (k v : Text) → IsKey k → trim (print_entry k v) ≡ print_entry k v
trim-print_entry [] v h = absurd h.starts
trim-print_entry (c ∷ s) v h =
    let shape = append_assoc s (b'=' ∷ b'"' ∷ v) (b'"' ∷ []) in
    trim-solid c (s ++ b'=' ∷ quote v) h.starts.0
    ∙ ap (◌∷◌ c)
        (rw (← shape) (trim_end-append (s ++ b'=' ∷ b'"' ∷ v) b'"' (unfold is_space in refl)))

pub equal_ne_hash : (c : ℕ) → c ≢ b'#' → (c == b'#') ≡ false
equal_ne_hash c h = ground arith

read_trimmed-print_entry :
    (vars : Dict Text) (k v : Text) → IsKey k → read_trimmed vars (print_entry k v) ≡ put vars k v
unfolding read_trimmed
read_trimmed-print_entry vars [] v h = absurd h.starts
read_trimmed-print_entry vars (c ∷ s) v h = rw (
  equal_ne_hash c h.starts.1,
  cut_at-append b'=' (c ∷ s) (quote v) h.no_equals,
  trim-IsKey (c ∷ s) h,
  trim-quote v,
  unquote-quote v,
)

read_line-print_entry :
    (vars : Dict Text) (k v : Text) → IsKey k → read_line vars (print_entry k v) ≡ put vars k v
unfolding read_line
read_line-print_entry vars k v h = rw (trim-print_entry k v h) (read_trimmed-print_entry vars k v h)

print_entry-Lacks : (k v : Text) → IsKey k → Lacks b'\n' v → Lacks b'\n' (print_entry k v)
print_entry-Lacks k v h g =
    All-append _ k (b'=' ∷ quote v) h.no_break
      (omega arith, (omega arith, All-append _ v (b'"' ∷ []) g (omega arith, tt)))

read_line-nil : (vars : Dict Text) → read_line vars [] ≡ vars
unfolding read_line trim trim_start trim_end
read_line-nil vars = refl

read_lines-entry :
    (vars : Dict Text) (k v rest : Text)
    → IsKey k
    → Lacks b'\n' v
    → read_lines vars (split b'\n' (print_entry k v ++ b'\n' ∷ rest))
      ≡ read_lines (put vars k v) (split b'\n' rest)
unfolding read_lines
read_lines-entry vars k v rest h g =
    let one = split_parts-Lacks b'\n' (print_entry k v) (print_entry-Lacks k v h g) in
    ap (read_lines vars) (
      split-append b'\n' (print_entry k v) rest
      ∙ ap (λ (p : Text × List Text). (p.0 ∷ p.1) ++ split b'\n' rest) one)
    ∙ ap (λ (d : Dict Text). read_lines d (split b'\n' rest)) (read_line-print_entry vars k v h)

read_lines-print_env :
    (vars d : Dict Text)
    → All EntryFits d
    → read_lines vars (split b'\n' (print_env d)) ≡ put_all vars d
read_lines-print_env vars [] h = unfold split_parts read_lines in read_line-nil vars
read_lines-print_env vars ((k, v) ∷ d) ((h, g), rest) =
    read_lines-entry vars k v (print_env d) h g ∙ read_lines-print_env (put vars k v) d rest

-- Writing entries as `KEY="value"` lines and parsing them assigns every value to its key in
-- order, whatever quotes, `=`, `#` or white space the values hold.
pub parse_env-print_env : (d : Dict Text) → All EntryFits d → parse_env (print_env d) ≡ put_all [] d
unfolding parse_env
parse_env-print_env d h = read_lines-print_env [] d h
