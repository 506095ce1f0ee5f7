-- ===== src/Backend/Files/Inside.antt =====
-- No request reaches a file outside the directory it is meant for.
use p2ser.Base.{
  ◌≡◌, ℕ, refl, sym, ap, ◌∙◌, arith, Bool, true, false, List, [], ◌∷◌, ◌++◌, All, All-mono, ◌⊎◌,
  inl, inr, Bool-cases, some, not, not_both, Bool, not, ◌&&◌, if◌then◌else◌,
}
use mathlib.Core.Path.{subst}
use p2ser.Text.{Text, codes, equal, truthy_text, split, join, starts_with}
use p2ser.Text.Equality.{equal_iff}
use p2ser.Text.Split.{Lacks, split-Lacks}
use p2ser.Backend.Store.Cursor.{has_prefix}
use p2ser.Backend.Files.{
  slash, out_parts, render, clean, is_under, allowed_root, dir_list, checked_working_dir,
}
use p2ser.Backend.Files.Closed.{closed, no_prefix, join-closed, closed_prefix}
use p2ser.Backend.Files.Clean.{IsSegment, segments, segments-All, out_parts-All, clean-rooted}

-- The path is the directory with these parts, or lies in it, by names that go down only.
abbrev pub InDir : List Text → Text → Type 0
InDir ds path = (more : List Text) × All IsSegment more × (path ≡ render true (ds ++ more))

-- A part of a path that is not rooted.
abbrev IsPart : Text → Type 0
IsPart p = (truthy_text p ≡ true) × Lacks slash p

join-start :
    (p : Text) (ps : List Text) → IsPart p → starts_with slash (join slash (p ∷ ps)) ≡ false
unfolding join
join-start [] ps h = absurd (ground arith)
join-start (c ∷ p) [] (_, (n, _)) = ground arith
join-start (c ∷ p) (q ∷ ps) (_, (n, _)) = ground arith

render-start : (ps : List Text) → All IsPart ps → starts_with slash (render false ps) ≡ false
unfolding render
render-start [] h = refl
render-start (p ∷ ps) (h, _) = join-start p ps h

-- A path that does not start at the root stays so.
clean-start :
    (path : Text) → starts_with slash path ≡ false → starts_with slash (clean path) ≡ false
unfolding clean
clean-start path e = rw e (
    render-start (out_parts false [] (split slash path)) (
      out_parts-All IsPart false (inr (refl, (ground arith, (ground arith, tt))))
        (λ p h. (h.0, h.3)) [] (split slash path) (split-Lacks slash path) tt))

is_under-start :
    (ds : List Text) (path : Text)
    → starts_with slash path ≡ false
    → is_under (render true ds) path ≡ false
unfolding is_under render has_prefix
is_under-start ds [] e = no_prefix (join slash ds) []
is_under-start ds (c ∷ path) e = ground arith

pub is_under-render :
    (d p : Text) (ds ps : List Text)
    → is_under (render true (d ∷ ds)) (render true (p ∷ ps))
      ≡ has_prefix (closed (d ∷ ds)) (closed (p ∷ ps))
unfolding is_under render has_prefix
is_under-render d p ds ps = rw (join-closed d ds, join-closed p ps) refl

is_under-root :
    (d : Text) (ds : List Text)
    → IsSegment d
    → is_under (render true (d ∷ ds)) (render true []) ≡ false
unfolding is_under render has_prefix join
is_under-root [] ds h = absurd (ground arith)
is_under-root (c ∷ d) [] (_, _, _, (n, _)) = ground arith
is_under-root (c ∷ d) (q ∷ ds) (_, _, _, (n, _)) = ground arith

drop_prefix : (ds more : List Text) → All IsSegment (ds ++ more) → All IsSegment more
drop_prefix [] more h = h
drop_prefix (d ∷ ds) more (_, h) = drop_prefix ds more h

is_under-rooted :
    (d : Text) (ds ps : List Text)
    → All IsSegment (d ∷ ds)
    → All IsSegment ps
    → is_under (render true (d ∷ ds)) (render true ps) ≡ true
    → InDir (d ∷ ds) (render true ps)
is_under-rooted d ds [] hd hp h = absurd (not_both _ h (is_under-root d ds hd.0))
is_under-rooted d ds (p ∷ ps) hd hp h =
    let lacks = λ (x : Text) (s : IsSegment x). s.3 in
    let (more, e) =
      closed_prefix (d ∷ ds) (p ∷ ps) (All-mono IsSegment (Lacks slash) (d ∷ ds) lacks hd)
        (All-mono IsSegment (Lacks slash) (p ∷ ps) lacks hp)
        (sym (is_under-render d p ds ps) ∙ h) in
    (more, drop_prefix (d ∷ ds) more (subst (All IsSegment) e hp), ap (render true) e)

-- A cleaned path that passes the test of a prefix lies in the directory.
pub is_under-InDir :
    (d : Text) (ds : List Text) (path : Text)
    → All IsSegment (d ∷ ds)
    → is_under (render true (d ∷ ds)) (clean path) ≡ true
    → InDir (d ∷ ds) (clean path)
is_under-InDir d ds path hd h = elim (Bool-cases (starts_with slash path)) [
  | inl e ↦
      let c = clean-rooted path e in
      subst (InDir (d ∷ ds)) (sym c) (
        is_under-rooted d ds (segments path) hd (segments-All path)
          (ap (is_under (render true (d ∷ ds))) (sym c) ∙ h))
  | inr e ↦ absurd (not_both _ h (is_under-start (d ∷ ds) (clean path) (clean-start path e)))
]

parts_root : allowed_root ≡ render true (codes "var" ∷ codes "lib" ∷ codes "p2ser" ∷ [])
unfolding render join
parts_root = refl

-- The parts of the directory of the server.
abbrev pub root_parts : List Text
root_parts = codes "var" ∷ codes "lib" ∷ codes "p2ser" ∷ []

root-InDir : InDir root_parts allowed_root
root-InDir = ([], tt, parts_root)

root-IsSegment : All IsSegment root_parts
unfolding equal
root-IsSegment = ground arith

under_root :
    (path : Text) → is_under allowed_root (clean path) ≡ true → InDir root_parts (clean path)
under_root path h =
    is_under-InDir (codes "var") (codes "lib" ∷ codes "p2ser" ∷ []) path root-IsSegment
      (ap (λ r. is_under r (clean path)) (sym parts_root) ∙ h)

allowed :
    (get under same : Bool) (path dir : Text)
    → (under ≡ true → InDir root_parts path)
    → (same ≡ true → InDir root_parts path)
    → if◌then◌else◌ {A = ℕ ⊎ Text}
        (not get)
        (inl 405)
        (if not under && not same then inl 403 else inr path)
      ≡ inr dir
    → InDir root_parts dir
allowed false under same path dir f g e = absurd (ground arith)
allowed true true same path dir f g e = subst (InDir root_parts) (ground arith) (f refl)
allowed true false true path dir f g e = subst (InDir root_parts) (ground arith) (g refl)
allowed true false false path dir f g e = absurd (ground arith)

-- The directory that is listed for a request is `/var/lib/p2ser` or lies in it, whatever its path
-- holds.
pub dir_list-InDir :
    (method path dir : Text) → dir_list method path ≡ inr dir → InDir root_parts dir
unfolding dir_list
dir_list-InDir method path dir e =
    let asked = clean (if truthy_text path then path else allowed_root) in
    allowed (equal method (codes "GET")) (is_under allowed_root asked) (equal asked allowed_root)
      asked dir (under_root (if truthy_text path then path else allowed_root))
      (λ h. subst (InDir root_parts) (sym ((equal_iff asked allowed_root).0 h)) root-InDir) e

-- The working directory of a deployment is empty, `/var/lib/p2ser` or in it.
pub checked_working_dir-InDir :
    (header dir : Text) → checked_working_dir header ≡ some dir → (dir ≡ []) ⊎ InDir root_parts dir
unfolding checked_working_dir
checked_working_dir-InDir [] dir e = inl (ground arith)
checked_working_dir-InDir (c ∷ header) dir e =
    elim (Bool-cases (is_under allowed_root (clean (c ∷ header)))) [
      | inl h ↦ inr (subst (InDir root_parts) (ground (arith, e, h)) (under_root (c ∷ header) h))
      | inr h ↦ absurd (ground (arith, e, h))
    ]
