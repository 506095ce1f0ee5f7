-- ===== src/Backend/Volume/Accepted.antt =====
-- Which absolute paths `resolveVolumeSrc` of backend/internal/engine/containerd.go accepts.
use p2ser.Base.{
  Option, ◌≡◌, ◌↔◌, ◌⊎◌, refl, sym, ap, ◌∙◌, arith, inl, inr, Bool-cases, Bool, true, false,
  not_both, ◌||◌, List, [], ◌∷◌, ◌++◌, All, All-append, All-mono, append_assoc, some, none,
  if◌then◌else◌,
}
use mathlib.Core.Path.{subst}
use p2ser.Text.{Text, codes, equal, join, split, starts_with}
use p2ser.Text.Equality.{equal_iff}
use p2ser.Text.Split.{Lacks}
use p2ser.Backend.Store.Cursor.{has_prefix}
use p2ser.Backend.Files.{slash, render, clean, is_under, out_parts}
use p2ser.Backend.Files.Closed.{closed, join-closed}
use p2ser.Backend.Files.Clean.{
  IsSegment, segments, segments-All, clean-rooted, segments-render, joined_path-render,
  out_parts-split,
}
use p2ser.Backend.Files.Inside.{InDir, is_under-InDir}
use p2ser.Backend.Files.Extracted.{is_under-append}
use p2ser.Backend.Volume.{named_volume_dir, allowed_tmp, resolve_absolute, resolve_volume_src}
use p2ser.Backend.Volume.Prefix.{has_prefix_grown, closed-last, has_prefix-trailing}

-- A path under /var/lib/p2ser whose next name begins with `volumes`.
abbrev pub LikeVolumes : List Text → Type 0
LikeVolumes qs =
    (v : Text) × (more : List Text) × (qs
      ≡ codes "var" ∷ codes "lib" ∷ codes "p2ser" ∷ (codes "volumes" ++ v) ∷ more)

abbrev above : List Text
above = codes "var" ∷ codes "lib" ∷ codes "p2ser" ∷ []

above-Lacks : All (Lacks slash) above
above-Lacks = ground arith

volumes-Lacks : Lacks slash (codes "volumes")
volumes-Lacks = ground arith

prefix-root : has_prefix named_volume_dir (render true []) ≡ false
unfolding has_prefix render join
prefix-root = refl

prefix-parts :
    (q : Text) (qs : List Text)
    → has_prefix named_volume_dir (render true (q ∷ qs)) ≡ true
    → has_prefix (closed above ++ codes "volumes") (closed (q ∷ qs)) ≡ true
unfolding has_prefix render
prefix-parts q qs h =
    subst (λ x. has_prefix (closed above ++ codes "volumes") x ≡ true) (join-closed q qs)
      (has_prefix_grown (closed above ++ codes "volumes") (join slash (q ∷ qs)) (slash ∷ []) h)

like-prefix :
    (v : Text) (more : List Text)
    → has_prefix named_volume_dir
        (render true (codes "var" ∷ codes "lib" ∷ codes "p2ser" ∷ (codes "volumes" ++ v) ∷ more))
      ≡ true
unfolding has_prefix render join
like-prefix v [] = refl
like-prefix v (m ∷ more) = refl

volumes_iff :
    (qs : List Text)
    → All IsSegment qs
    → (has_prefix named_volume_dir (render true qs) ≡ true) ↔ LikeVolumes qs
volumes_iff [] hq =
    (λ h. absurd (not_both _ h prefix-root), λ (v, more, e). absurd (ground (arith, e)))
volumes_iff (q ∷ qs) hq = (
  λ h.
      closed-last above (codes "volumes") (q ∷ qs) above-Lacks volumes-Lacks refl
        (All-mono IsSegment (Lacks slash) (q ∷ qs) (λ x s. s.3) hq) (prefix-parts q qs h),
  λ (v, more, e). ap (λ x. has_prefix named_volume_dir (render true x)) e ∙ like-prefix v more,
)

-- A prefix of a prefix
has_prefix-front : (p s t : Text) → has_prefix (p ++ s) t ≡ true → has_prefix p t ≡ true
unfolding has_prefix
has_prefix-front [] s t h = refl
has_prefix-front (c ∷ p) s [] h = absurd (ground arith)
has_prefix-front (c ∷ p) s (d ∷ t) h = ground (arith, h, has_prefix-front p s t)

has_prefix_refl : (s : Text) → has_prefix s s ≡ true
unfolding has_prefix
has_prefix_refl [] = refl
has_prefix_refl (c ∷ s) = ground (arith, has_prefix_refl s)

-- The two tests of the directory of the project are that of `HandleDirList`.
is_under-trailing :
    (root path : Text)
    → is_under root path ≡ (equal path root || has_prefix (root ++ slash ∷ []) path)
unfolding is_under
is_under-trailing root path = has_prefix-trailing slash root path

pub is_under-has_prefix :
    (root path : Text) → is_under root path ≡ true → has_prefix root path ≡ true
is_under-has_prefix root path h = elim (Bool-cases (equal path root)) [
  | inl e ↦
      subst (λ x. has_prefix root x ≡ true) (sym ((equal_iff path root).0 e)) (has_prefix_refl root)
  | inr e ↦
      has_prefix-front root (slash ∷ []) path
        (sym (rw e refl) ∙ sym (is_under-trailing root path) ∙ h)
]

accepted_iff :
    (a t u : Bool) (path : Text)
    → ((if a then some path else if t then if u then some path else none else none) ≡ some path)
      ↔ ((a ≡ true) ⊎ ((t ≡ true) × (u ≡ true)))
accepted_iff a t u path = ground arith

-- Any absolute path
module _ (tmp : Text) (cwd : Option Text) (project src : Text)
    (rooted : starts_with slash src ≡ true) where
  resolve-rooted : resolve_volume_src tmp cwd project src ≡ resolve_absolute tmp project src
  unfolding resolve_volume_src
  resolve-rooted = rw rooted refl

  resolve_absolute-tests : resolve_absolute tmp project src ≡ (
      if has_prefix named_volume_dir (clean src)
      then some (clean src)
      else if has_prefix tmp (clean src)
      then if (equal (clean src) (allowed_tmp tmp project)
          || has_prefix (allowed_tmp tmp project ++ slash ∷ []) (clean src))
        then some (clean src)
        else none
      else none)
  unfolding resolve_absolute
  resolve_absolute-tests = refl

  -- What `resolveVolumeSrc` accepts of the absolute paths.
  pub resolve_absolute_iff : (resolve_volume_src tmp cwd project src ≡ some (clean src)) ↔ (
      (has_prefix named_volume_dir (clean src) ≡ true)
      ⊎ ((has_prefix tmp (clean src) ≡ true)
          × (is_under (allowed_tmp tmp project) (clean src) ≡ true)))
  resolve_absolute_iff =
      let path = clean src in
      let allowed = allowed_tmp tmp project in
      subst
        (λ r. (r ≡ some path) ↔ (
          (has_prefix named_volume_dir path ≡ true)
          ⊎ ((has_prefix tmp path ≡ true) × (is_under allowed path ≡ true))))
        (sym (resolve-rooted ∙ resolve_absolute-tests))
        (rw (is_under-trailing allowed path) (
          accepted_iff (has_prefix named_volume_dir path) (has_prefix tmp path)
            (equal path allowed || has_prefix (allowed ++ slash ∷ []) path) path))

module _ (t : Text) (ts : List Text) (project : Text) (cwd : Option Text) (src : Text)
    (names : All IsSegment (t ∷ ts)) (named : IsSegment (codes "p2ser-project-" ++ project))
    (rooted : starts_with slash src ≡ true) where
  abbrev tmp : Text
  tmp = render true (t ∷ ts)

  abbrev own : List Text
  own = t ∷ ts ++ (codes "p2ser-project-" ++ project) ∷ []

  own-IsSegment : All IsSegment own
  own-IsSegment =
      All-append IsSegment (t ∷ ts) ((codes "p2ser-project-" ++ project) ∷ []) names (named, tt)

  tmp-start : starts_with slash tmp ≡ true
  unfolding render
  tmp-start = refl

  -- The directory of the project lies right in the temporary one.
  allowed_tmp-own : allowed_tmp tmp project ≡ render true own
  unfolding allowed_tmp join
  allowed_tmp-own =
      joined_path-render tmp (codes "p2ser-project-" ++ project) tmp-start
      ∙ ap (λ ps. render true (out_parts true ps (split slash (codes "p2ser-project-" ++ project))))
          (segments-render (t ∷ ts) names)
      ∙ ap (render true)
          (out_parts-split true (t ∷ ts) (codes "p2ser-project-" ++ project) [] (named, tt))

  own_iff : (is_under (allowed_tmp tmp project) (clean src) ≡ true) ↔ InDir own (clean src)
  own_iff = (
    λ h.
        is_under-InDir t (ts ++ (codes "p2ser-project-" ++ project) ∷ []) src own-IsSegment
          (ap (λ r. is_under r (clean src)) (sym allowed_tmp-own) ∙ h),
    λ (more, _, e).
        ap (λ r. is_under r (clean src)) allowed_tmp-own
        ∙ ap (is_under (render true own)) e
        ∙ is_under-append t (ts ++ (codes "p2ser-project-" ++ project) ∷ []) more,
  )

  own_prefix : InDir own (clean src) → has_prefix tmp (clean src) ≡ true
  own_prefix (more, _, e) =
      ap (has_prefix tmp) (
        e
        ∙ ap (λ x. render true (t ∷ x))
            (append_assoc ts ((codes "p2ser-project-" ++ project) ∷ []) more))
      ∙ is_under-has_prefix tmp
          (render true (t ∷ ts ++ ((codes "p2ser-project-" ++ project) ∷ more)))
          (is_under-append t ts ((codes "p2ser-project-" ++ project) ∷ more))

  -- An absolute path is accepted, as its cleaned form, exactly if that is /var/lib/p2ser with a name
  -- behind it that begins with `volumes`, or lies in the directory of the pod's project among the
  -- temporary files, provided that the temporary directory is not the root, and that the directory of the project is one
  -- name: a directory beside /var/lib/p2ser/volumes whose name goes on is accepted as well.
  pub resolve_volume_src_iff :
      (resolve_volume_src tmp cwd project src ≡ some (clean src))
      ↔ (LikeVolumes (segments src) ⊎ InDir own (clean src))
  resolve_volume_src_iff =
      let path = clean src in
      let same = ap (has_prefix named_volume_dir) (clean-rooted src rooted) in
      let volumes = volumes_iff (segments src) (segments-All src) in
      let accepted = resolve_absolute_iff tmp cwd project src rooted in
      (
        λ h. elim (accepted.0 h) [
          | inl a ↦ inl (volumes.0 (sym same ∙ a))
          | inr (_, u) ↦ inr (own_iff.0 u)
        ],
        λ h.
            accepted.1 (elim h [
              | inl l ↦ inl (same ∙ volumes.1 l)
              | inr o ↦ inr (own_prefix o, own_iff.1 o)
            ]),
      )
