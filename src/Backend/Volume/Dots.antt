-- ===== src/Backend/Volume/Dots.antt =====
-- The name of a project that takes the guard of `resolveVolumeSrc` off.
use p2ser.Base.{Option, ◌≡◌, refl, ap, ◌∙◌, inr, true, false, List, [], ◌∷◌, ◌++◌, All, some}
use p2ser.Text.{Text, codes, equal, split, split_parts, starts_with}
use p2ser.Text.Split.{split-append, split_parts-Lacks}
use p2ser.Backend.Files.{slash, render, clean, is_under, out_up, out_part, out_parts}
use p2ser.Backend.Files.Clean.{IsSegment, segments-render, joined_path-render, out_parts-append}
use p2ser.Backend.Files.Inside.{InDir}
use p2ser.Backend.Files.Extracted.{is_under-append}
use p2ser.Backend.Volume.{allowed_tmp, resolve_volume_src}
use p2ser.Backend.Volume.Accepted.{resolve_absolute_iff, is_under-has_prefix}

out_up-snoc :
    (ps : List Text) (l : Text) → equal l (codes "..") ≡ false → out_up true (ps ++ l ∷ []) ≡ ps
unfolding out_up
out_up-snoc [] l h = rw h refl
out_up-snoc (p ∷ []) l h = ap (◌∷◌ p) (rw h refl)
out_up-snoc (p ∷ q ∷ ps) l h = ap (◌∷◌ p) (out_up-snoc (q ∷ ps) l h)

out_parts-dots : (out : List Text) → out_parts true out (codes ".." ∷ []) ≡ out_up true out
unfolding out_parts out_part equal
out_parts-dots out = refl

split-dots : split slash (codes "..") ≡ codes ".." ∷ []
unfolding split_parts
split-dots = refl

module _ (t : Text) (ts : List Text) (name : Text) (cwd : Option Text) (src : Text)
    (names : All IsSegment (t ∷ ts)) (named : IsSegment (codes "p2ser-project-" ++ name))
    (rooted : starts_with slash src ≡ true) where
  abbrev first : Text
  first = codes "p2ser-project-" ++ name

  tmp-start : starts_with slash (render true (t ∷ ts)) ≡ true
  unfolding render
  tmp-start = refl

  split-first : split slash (first ++ slash ∷ codes "..") ≡ first ∷ codes ".." ∷ []
  split-first =
      split-append slash first (codes "..")
      ∙ rw (split_parts-Lacks slash first named.3) (ap (◌∷◌ first) split-dots)

  -- The directory of the project is the temporary directory itself.
  allowed_tmp-dots : allowed_tmp (render true (t ∷ ts)) (name ++ codes "/..") ≡ render true (t ∷ ts)
  unfolding allowed_tmp
  allowed_tmp-dots =
      joined_path-render (render true (t ∷ ts)) (first ++ slash ∷ codes "..") tmp-start
      ∙ ap (λ ps. render true (out_parts true ps (split slash (first ++ slash ∷ codes ".."))))
          (segments-render (t ∷ ts) names)
      ∙ ap (λ ps. render true (out_parts true (t ∷ ts) ps)) split-first
      ∙ ap (render true) (
          out_parts-append true (t ∷ ts) (first ∷ []) (codes ".." ∷ []) (named, tt)
          ∙ out_parts-dots (t ∷ ts ++ first ∷ [])
          ∙ out_up-snoc (t ∷ ts) first named.2)

  allowed-IsUnder :
      InDir (t ∷ ts) (clean src)
      → is_under (allowed_tmp (render true (t ∷ ts)) (name ++ codes "/..")) (clean src) ≡ true
  allowed-IsUnder (more, _, e) =
      ap (λ r. is_under r (clean src)) allowed_tmp-dots
      ∙ ap (is_under (render true (t ∷ ts))) e
      ∙ is_under-append t ts more

  -- Where the name of a project ends in `/..` behind one name, every absolute path in the temporary
  -- directory is accepted, those of other projects included, provided that the temporary directory
  -- is not the root.
  pub resolve_volume_src-dots :
      InDir (t ∷ ts) (clean src)
      → resolve_volume_src (render true (t ∷ ts)) cwd (name ++ codes "/..") src ≡ some (clean src)
  resolve_volume_src-dots inside =
      let (more, _, e) = inside in
      let under = ap (is_under (render true (t ∷ ts))) e ∙ is_under-append t ts more in
      (resolve_absolute_iff (render true (t ∷ ts)) cwd (name ++ codes "/..") src rooted).1
        (inr (is_under-has_prefix (render true (t ∷ ts)) (clean src) under, allowed-IsUnder inside))
