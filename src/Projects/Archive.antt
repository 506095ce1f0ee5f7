-- ===== src/Projects/Archive.antt =====
-- The archive of a folder holds its files under their paths inside the folder.
use p2ser.Base.{ℕ, suc, ◌+◌, ◌≡◌, refl, ap, ◌∙◌, arith, List, [], ◌∷◌, ◌++◌, true, All, length, map}
use p2ser.Projects.{Upload, substring, archive, archive_of, root_of}
use p2ser.Text.Split.{Lacks, split_parts-append, split_parts-Lacks}
use p2ser.Text.{Text, truthy_text}

substring_path : (root path : Text) → substring (length root + 1) (root ++ b'/' ∷ path) ≡ path
unfolding substring
substring_path [] path = refl
substring_path (c ∷ s) path =
    let n : ℕ = length s in
    let e : suc n + 1 ≡ suc (n + 1) = omega arith in
    ap (λ (k : ℕ). substring k (c ∷ (s ++ b'/' ∷ path))) e ∙ substring_path s path

abbrev snd_of : Text × Upload → Upload
snd_of e = e.1

-- The file lies at a path that is not empty, in the folder.
abbrev pub IsInside : Text → Text × Upload → Type 0
IsInside root (path, f) = (f.path ≡ root ++ b'/' ∷ path) × (truthy_text path ≡ true)

archive_entry :
    (skip : ℕ) (f : Upload) (fs : List Upload) (path : Text)
    → substring skip f.path ≡ path
    → truthy_text path ≡ true
    → archive skip (f ∷ fs) ≡ (path, f) ∷ archive skip fs
unfolding archive
archive_entry skip f fs path e t = rw (e, t)

root_of_path : (root path : Text) → Lacks b'/' root → root_of (root ++ b'/' ∷ path) ≡ root
root_of_path root path h =
    ap (λ (p : Text × List Text). p.0) (split_parts-append b'/' root path)
    ∙ ap (λ (p : Text × List Text). p.0) (split_parts-Lacks b'/' root h)

archive-IsInside :
    (root : Text) (entries : List (Text × Upload))
    → All (IsInside root) entries
    → archive (length root + 1) (map snd_of entries) ≡ entries
archive-IsInside root [] h = unfold archive in refl
archive-IsInside root ((path, f) ∷ rest) ((e, t), h) =
    archive_entry (length root + 1) f (map snd_of rest) path
      (ap (substring (length root + 1)) e ∙ substring_path root path) t
    ∙ ap (◌∷◌ (path, f)) (archive-IsInside root rest h)

-- Files that lie in one folder are packed under their paths in it, all of them and in order.
pub archive_of-IsInside :
    (root : Text) (entries : List (Text × Upload))
    → Lacks b'/' root
    → All (IsInside root) entries
    → archive_of (map snd_of entries) ≡ entries
unfolding archive_of
archive_of-IsInside root [] h inside = refl
archive_of-IsInside root ((path, f) ∷ rest) h ((e, t), inside) =
    let found = ap (λ (q : Text). root_of q) e ∙ root_of_path root path h in
    ap (λ (r : Text). archive (length r + 1) (f ∷ map snd_of rest)) found
    ∙ archive-IsInside root ((path, f) ∷ rest) ((e, t), inside)
