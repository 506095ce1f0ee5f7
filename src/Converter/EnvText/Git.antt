-- ===== src/Converter/EnvText/Git.antt =====
-- The reader of the git form against `parseEnvText`.
use p2ser.Base.{ℕ, ◌≡◌, refl, ap, ◌∙◌, arith, [], ◌∷◌, ◌++◌, if◌then◌else◌, some, false}
use p2ser.Dict.{Dict, put, get, get-put}
use p2ser.Text.Equality.{equal_refl}
use p2ser.Text.Split.{Lacks, cut_at-append, split_parts-append, split_parts-Lacks, join-split}
use p2ser.Text.Trim.{trim-solid, trim_end-append_cons, trim-trim_end}
use p2ser.Text.{Text, is_space, trim, trim_end, truthy_text}
use p2ser.Converter.EnvText.Lines.{IsKey, trim-IsKey, equal_ne_hash}
use p2ser.Converter.EnvText.{unquote, read_trimmed, read_line, git_read_line}

trim_assignment :
    (c : ℕ) (s v : Text)
    → is_space c ≡ false
    → trim ((c ∷ s) ++ b'=' ∷ v) ≡ (c ∷ s) ++ b'=' ∷ trim_end v
trim_assignment c s v h =
    trim-solid c (s ++ b'=' ∷ v) h
    ∙ ap (◌∷◌ c) (trim_end-append_cons s b'=' v (unfold is_space in refl))

read_line_assignment :
    (vars : Dict Text) (k v : Text)
    → IsKey k
    → read_line vars (k ++ b'=' ∷ v) ≡ put vars k (unquote (trim v))
unfolding read_line read_trimmed
read_line_assignment vars [] v h = absurd h.starts
read_line_assignment vars (c ∷ s) v h = rw (
  trim_assignment c s v h.starts.0,
  equal_ne_hash c h.starts.1,
  cut_at-append b'=' (c ∷ s) (trim_end v) h.no_equals,
  trim-IsKey (c ∷ s) h,
  trim-trim_end v,
)

git_read_line-append :
    (vars : Dict Text) (k v : Text)
    → Lacks b'=' k
    → git_read_line vars (k ++ b'=' ∷ v)
      ≡ (if truthy_text k then put vars (trim k) (trim v) else vars)
unfolding git_read_line
git_read_line-append vars k v h =
    rw (split_parts-append b'=' k v, split_parts-Lacks b'=' k h, join-split b'=' v)

-- On a line `KEY=value` with a name that a line can set, whatever the value is, the two readers
-- assign to the same name, and the git form differs by leaving a pair of quotes on.
pub git_read_line-read_line :
    (vars : Dict Text) (k v : Text)
    → IsKey k
    → (read_line vars (k ++ b'=' ∷ v) ≡ put vars k (unquote (trim v)))
      × (git_read_line vars (k ++ b'=' ∷ v) ≡ put vars k (trim v))
git_read_line-read_line vars [] v h = absurd h.starts
git_read_line-read_line vars (c ∷ s) v h = (
  read_line_assignment vars (c ∷ s) v h,
  git_read_line-append vars (c ∷ s) v h.no_equals
      ∙ ap (λ (k : Text). put vars k (trim v)) (trim-IsKey (c ∷ s) h),
)

-- A comment line with an `=` in it changes nothing for `parseEnvText`, and for the git form it sets
-- a variable whose name begins with `#`.
pub git_reads_comment :
    (vars : Dict Text) (s v : Text)
    → Lacks b'=' s
    → (read_line vars (b'#' ∷ (s ++ b'=' ∷ v)) ≡ vars)
      × (get (git_read_line vars (b'#' ∷ (s ++ b'=' ∷ v))) (b'#' ∷ trim_end s) ≡ some (trim v))
unfolding read_line read_trimmed
git_reads_comment vars s v h =
    let solid : is_space b'#' ≡ false = unfold is_space in refl in
    (
      rw (trim_assignment b'#' s v solid),
      ap (λ (d : Dict Text). get d (b'#' ∷ trim_end s))
            (git_read_line-append vars (b'#' ∷ s) v (omega arith, h)
              ∙ ap (λ (k : Text). put vars k (trim v)) (trim-solid b'#' s solid))
          ∙ get-put vars (b'#' ∷ trim_end s) (b'#' ∷ trim_end s) (trim v)
          ∙ rw (equal_refl (b'#' ∷ trim_end s)),
    )
