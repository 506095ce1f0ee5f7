-- ===== src/Backend/Files/Clean.antt =====
-- What `filepath.Clean` leaves of a path.
use p2ser.Base.{
  ◌≡◌, refl, sym, ap, ◌∙◌, arith, Bool, true, false, List, [], ◌∷◌, ◌++◌, All, All-append, All-mono,
  append-nil, append_assoc, ◌⊎◌, inl, inr, Bool-cases,
}
use mathlib.Core.Path.{subst}
use p2ser.Text.Equality.{equal_iff}
use p2ser.Text.{Text, codes, equal, truthy_text, split, split_parts, join, starts_with}
use p2ser.Text.Split.{Lacks, split-append, split-Lacks, split_parts-Lacks}
use p2ser.Backend.Files.{
  slash, out_up, out_part, out_parts, render, clean, joined_path, up_to_slash, dir_of,
}
use p2ser.Backend.Files.Closed.{closed, join-append, split-closed, up_to_slash-closed}

-- A name that means an entry of a directory.
abbrev pub IsSegment : Text → Type 0
IsSegment p =
    (truthy_text p ≡ true)
    × (equal p (codes ".") ≡ false)
    × (equal p (codes "..") ≡ false)
    × Lacks slash p

-- The parts of a path from the root.
unfoldable pub segments : Text → List Text
unfolding out_parts
segments path = out_parts true [] (split slash path)

module _ (P : Text → Type 0) (rooted : Bool) (up : (rooted ≡ true) ⊎ P (codes "..")) where
  out_up-All : (out : List Text) → All P out → All P (out_up rooted out)
  unfolding out_up
  out_up-All [] h = elim up [
    | inl e ↦ rw e tt
    | inr dots ↦ elim (Bool-cases rooted) [ inl e ↦ rw e tt | inr e ↦ rw e (dots, tt) ]
  ]
  out_up-All (p ∷ []) h = elim (Bool-cases (equal p (codes ".."))) [
    | inl e ↦ rw e (h.0, (subst P ((equal_iff p (codes "..")).0 e) h.0, tt))
    | inr e ↦ rw e tt
  ]
  out_up-All (p ∷ q ∷ ps) (h, hs) = (h, out_up-All (q ∷ ps) hs)

  module _ (segment : (p : Text) → IsSegment p → P p) where
    out_part-All :
        (out : List Text) (p : Text) → Lacks slash p → All P out → All P (out_part rooted out p)
    unfolding out_part
    out_part-All out p lacks h = elim (Bool-cases (truthy_text p)) [
      | inl full ↦ elim (Bool-cases (equal p (codes "."))) [
        | inl dot ↦ rw (full, dot) h
        | inr no_dot ↦ elim (Bool-cases (equal p (codes ".."))) [
          | inl dots ↦ rw (full, no_dot, dots) (out_up-All out h)
          | inr no_dots ↦
              rw (full, no_dot, no_dots)
                (All-append P out (p ∷ []) h (segment p (full, no_dot, no_dots, lacks), tt))
        ]
      ]
      | inr empty ↦ rw empty h
    ]

    pub out_parts-All :
        (out parts : List Text)
        → All (Lacks slash) parts
        → All P out
        → All P (out_parts rooted out parts)
    unfolding out_parts
    out_parts-All out [] lacks h = h
    out_parts-All out (p ∷ ps) (l, lacks) h =
        out_parts-All (out_part rooted out p) ps lacks (out_part-All out p l h)

-- The parts of a path from the root are names.
pub segments-All : (path : Text) → All IsSegment (segments path)
unfolding segments
segments-All path =
    out_parts-All IsSegment true (inl refl) (λ p h. h) [] (split slash path)
      (split-Lacks slash path) tt

out_part-IsSegment :
    (rooted : Bool) (out : List Text) (p : Text)
    → IsSegment p
    → out_part rooted out p ≡ out ++ p ∷ []
unfolding out_part
out_part-IsSegment rooted out p (full, no_dot, no_dots, _) = rw (full, no_dot, no_dots) refl

-- Names are taken as they are.
pub out_parts-append :
    (rooted : Bool) (out ps rest : List Text)
    → All IsSegment ps
    → out_parts rooted out (ps ++ rest) ≡ out_parts rooted (out ++ ps) rest
unfolding out_parts
out_parts-append rooted out [] rest h = ap (λ o. out_parts rooted o rest) (sym (append-nil out))
out_parts-append rooted out (p ∷ ps) rest (h, hs) =
    ap (λ o. out_parts rooted o (ps ++ rest)) (out_part-IsSegment rooted out p h)
    ∙ out_parts-append rooted (out ++ p ∷ []) ps rest hs
    ∙ ap (λ o. out_parts rooted o rest) (append_assoc out (p ∷ []) ps)

-- The parts one after the other.
pub out_parts_later :
    (rooted : Bool) (out ps rest : List Text)
    → out_parts rooted out (ps ++ rest) ≡ out_parts rooted (out_parts rooted out ps) rest
unfolding out_parts
out_parts_later rooted out [] rest = refl
out_parts_later rooted out (p ∷ ps) rest = out_parts_later rooted (out_part rooted out p) ps rest

out_parts_end : (rooted : Bool) (out : List Text) → out_parts rooted out ([] ∷ []) ≡ out
unfolding out_parts out_part
out_parts_end rooted out = refl

pub clean-rooted :
    (path : Text) → starts_with slash path ≡ true → clean path ≡ render true (segments path)
unfolding clean segments
clean-rooted path e = rw e refl

split-rooted : (s : Text) → split slash (slash ∷ s) ≡ [] ∷ split slash s
unfolding split_parts
split-rooted s = refl

segments-rooted : (s : Text) → segments (slash ∷ s) ≡ out_parts true [] (split slash s)
unfolding segments out_parts out_part
segments-rooted s = rw (split-rooted s) refl

segments-closed : (ps : List Text) → All IsSegment ps → segments (slash ∷ closed ps) ≡ ps
segments-closed ps h =
    segments-rooted (closed ps)
    ∙ ap (out_parts true []) (split-closed ps (All-mono IsSegment (Lacks slash) ps (λ p s. s.3) h))
    ∙ out_parts-append true [] ps ([] ∷ []) h
    ∙ out_parts_end true ps

up_to_slash-rooted : (s : Text) → up_to_slash (slash ∷ s) ≡ slash ∷ up_to_slash s
unfolding up_to_slash
up_to_slash-rooted s = refl

-- The directory of a path is the path without its last part.
pub dir_of-render :
    (ps : List Text) (l : Text)
    → All IsSegment ps
    → Lacks slash l
    → dir_of (render true (ps ++ l ∷ [])) ≡ render true ps
unfolding dir_of render
dir_of-render ps l h lacks =
    ap (λ s. clean (up_to_slash (slash ∷ s))) (join-append ps l)
    ∙ ap clean
        (up_to_slash-rooted (closed ps ++ l) ∙ ap (◌∷◌ slash) (up_to_slash-closed ps l lacks))
    ∙ clean-rooted (slash ∷ closed ps) refl
    ∙ ap (render true) (segments-closed ps h)

split-join :
    (p : Text) (ps : List Text)
    → All (Lacks slash) (p ∷ ps)
    → split slash (join slash (p ∷ ps)) ≡ p ∷ ps
unfolding join
split-join p [] (h, _) = rw (split_parts-Lacks slash p h) refl
split-join p (q ∷ ps) (h, hs) =
    split-append slash p (join slash (q ∷ ps))
    ∙ rw (split_parts-Lacks slash p h) (ap (◌∷◌ p) (split-join q ps hs))

-- The parts that a joined path adds to those before.
pub out_parts-split :
    (rooted : Bool) (out : List Text) (p : Text) (ps : List Text)
    → All IsSegment (p ∷ ps)
    → out_parts rooted out (split slash (join slash (p ∷ ps))) ≡ out ++ p ∷ ps
unfolding out_parts
out_parts-split rooted out p ps h =
    ap (out_parts rooted out) (
      split-join p ps (All-mono IsSegment (Lacks slash) (p ∷ ps) (λ x s. s.3) h)
      ∙ sym (append-nil (p ∷ ps)))
    ∙ out_parts-append rooted out (p ∷ ps) [] h

-- A path that is made of names is read as these names.
pub segments-render : (ps : List Text) → All IsSegment ps → segments (render true ps) ≡ ps
unfolding render join
segments-render [] h = segments-closed [] tt
segments-render (p ∷ ps) h = segments-rooted (join slash (p ∷ ps)) ∙ out_parts-split true [] p ps h

start-render : (ps : List Text) → starts_with slash (render true ps) ≡ true
unfolding render
start-render ps = refl

-- Cleaning a cleaned path changes nothing.
pub clean-clean : (path : Text) → starts_with slash path ≡ true → clean (clean path) ≡ clean path
clean-clean path e =
    let c = clean-rooted path e in
    ap clean c
    ∙ clean-rooted (render true (segments path)) (start-render (segments path))
    ∙ ap (render true) (segments-render (segments path) (segments-All path))
    ∙ sym c

start-append : (s t : Text) → starts_with slash s ≡ true → starts_with slash (s ++ t) ≡ true
start-append [] t h = absurd (ground arith)
start-append (c ∷ s) t h = h

-- What a joined path is.
pub joined_path-rooted :
    (dir name : Text)
    → starts_with slash dir ≡ true
    → joined_path dir name ≡ clean (dir ++ slash ∷ name)
unfolding joined_path
joined_path-rooted [] name h = absurd (ground arith)
joined_path-rooted (c ∷ dir) name h = refl

pub clean-joined_path :
    (dir name : Text)
    → starts_with slash dir ≡ true
    → clean (joined_path dir name) ≡ joined_path dir name
clean-joined_path dir name h =
    let j = joined_path-rooted dir name h in
    ap clean j ∙ clean-clean (dir ++ slash ∷ name) (start-append dir (slash ∷ name) h) ∙ sym j

-- The parts of a joined path are those of the directory, then those of the name.
pub joined_path-render :
    (dir name : Text)
    → starts_with slash dir ≡ true
    → joined_path dir name ≡ render true (out_parts true (segments dir) (split slash name))
unfolding segments
joined_path-render dir name h =
    joined_path-rooted dir name h
    ∙ clean-rooted (dir ++ slash ∷ name) (start-append dir (slash ∷ name) h)
    ∙ ap (λ ps. render true (out_parts true [] ps)) (split-append slash dir name)
    ∙ ap (render true) (out_parts_later true [] (split slash dir) (split slash name))
