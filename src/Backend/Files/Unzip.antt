-- ===== src/Backend/Files/Unzip.antt =====
-- The calls of the file system that `safeUnzip` of backend/internal/api/api.go makes.
use p2ser.Base.{
  ◌≡◌, refl, sym, ap, ◌∙◌, Bool, true, List, [], ◌∷◌, ◌++◌, All, All-append, append-nil, ltb,
  append_assoc, ◌⊎◌, inl, inr, Bool-cases,
}
use mathlib.Core.Path.{subst}
use p2ser.Text.{Text, split, starts_with}
use p2ser.Backend.Files.{
  slash, render, clean, is_under, joined_path, dir_of, FileCall, ZipEntry, max_size, unzip_file,
  unzip_entry, safe_unzip, mkdir_all, write_file,
}
use p2ser.Backend.Files.Clean.{
  IsSegment, segments, segments-All, clean-joined_path, clean-rooted, dir_of-render,
}
use p2ser.Backend.Files.Inside.{InDir, is_under-InDir}

-- A list is empty or has a last item.
snoc_cases :
    (ps : List Text)
    → All IsSegment ps
    → (ps ≡ [])
      ⊎ ((front : List Text) × (l : Text) × (ps ≡ front ++ l ∷ [])
          × All IsSegment front
          × IsSegment l)
snoc_cases [] h = inl refl
snoc_cases (p ∷ ps) (h, hs) = elim (snoc_cases ps hs) [
  | inl e ↦ inr ([], p, ap (◌∷◌ p) e, tt, h)
  | inr (front, l, e, all, s) ↦ inr (p ∷ front, l, ap (◌∷◌ p) e, (h, all), s)
]

-- The path lies in the directory, or is the one above it.
abbrev pub Reaches : List Text → Text → Type 0
Reaches ds path = InDir ds path ⊎ (path ≡ dir_of (render true ds))

dir_of-InDir :
    (ds : List Text) (path : Text) → All IsSegment ds → InDir ds path → Reaches ds (dir_of path)
dir_of-InDir ds path hd (more, h, e) = elim (snoc_cases more h) [
  | inl none_more ↦ inr (
      ap dir_of e
      ∙ ap (λ m. dir_of (render true (ds ++ m))) none_more
      ∙ ap (λ m. dir_of (render true m)) (append-nil ds))
  | inr (front, l, split, all, s) ↦ inl (
    front,
    all,
    ap dir_of e
        ∙ ap (λ m. dir_of (render true m))
            (ap (λ m. ds ++ m) split ∙ sym (append_assoc ds front (l ∷ [])))
        ∙ dir_of-render (ds ++ front) l (All-append IsSegment ds front hd all) s.3,
  )
]

-- What a call touches.
abbrev pub CallReaches : List Text → FileCall → Type 0
CallReaches ds (mkdir_all path) = Reaches ds path
CallReaches ds (write_file path content) = InDir ds path

module _ (works : FileCall → Bool) where
  unzip_file-Reaches :
      (ds : List Text) (dst : Text) (f : ZipEntry)
      → All IsSegment ds
      → InDir ds dst
      → All (CallReaches ds) (unzip_file works dst f).0
  unfolding unzip_file
  unzip_file-Reaches ds dst f hd h =
      let above = dir_of-InDir ds dst hd h in
      elim (Bool-cases (works (mkdir_all (dir_of dst)))) [
        | inl made ↦ elim (Bool-cases (ltb max_size f.uncompressed_size)) [
          | inl large ↦ rw (made, large) (above, tt)
          | inr fits ↦ rw (made, fits) (above, (h, tt))
        ]
        | inr failed ↦ rw failed (above, tt)
      ]

  module _ (dest d : Text) (ds : List Text) (rooted : starts_with slash dest ≡ true)
      (deep : segments dest ≡ d ∷ ds) where
    names : All IsSegment (d ∷ ds)
    names = subst (All IsSegment) deep (segments-All dest)

    clean_dest : clean dest ≡ render true (d ∷ ds)
    clean_dest = clean-rooted dest rooted ∙ ap (render true) deep

    unzip_entry-Reaches : (f : ZipEntry) → All (CallReaches (d ∷ ds)) (unzip_entry works dest f).0
    unfolding unzip_entry
    unzip_entry-Reaches f =
        let dst = joined_path dest f.entry_name in
        elim (Bool-cases (is_under (clean dest) (clean dst))) [
          | inl passed ↦
              let inside = subst (InDir (d ∷ ds)) (clean-joined_path dest f.entry_name rooted) (
                is_under-InDir d ds dst names
                  (ap (λ s. is_under s (clean dst)) (sym clean_dest) ∙ passed)) in
              elim (Bool-cases f.is_dir) [
                | inl dir ↦ rw (passed, dir) (inl inside, tt)
                | inr file ↦ rw (passed, file) (unzip_file-Reaches (d ∷ ds) dst f names inside)
              ]
          | inr refused ↦ rw refused tt
        ]

    -- Whatever an archive holds and whichever calls fail, every file that is written lies in the
    -- directory, under names that only go down, and every directory that is made lies in it or is
    -- the one right above it, provided that the path of the directory starts at the root and names
    -- something below it.
    pub safe_unzip-Reaches :
        (fs : List ZipEntry) → All (CallReaches (d ∷ ds)) (safe_unzip works dest fs).0
    unfolding safe_unzip
    safe_unzip-Reaches [] = tt
    safe_unzip-Reaches (f ∷ fs) =
        let first = unzip_entry-Reaches f in
        elim (Bool-cases (unzip_entry works dest f).1) [
          | inl good ↦ rw good (
              All-append (CallReaches (d ∷ ds)) (unzip_entry works dest f).0
                (safe_unzip works dest fs).0 first (safe_unzip-Reaches fs))
          | inr failed ↦ rw failed first
        ]
