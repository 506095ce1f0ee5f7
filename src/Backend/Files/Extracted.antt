-- ===== src/Backend/Files/Extracted.antt =====
-- Which archives `safeUnzip` of backend/internal/api/api.go extracts in full.
use p2ser.Base.{
  ◌≡◌, ◌≤◌, ℕ, zero, suc, refl, sym, ap, ◌∙◌, arith, true, false, List, [], ◌∷◌, ◌++◌, All,
  append_assoc, map, length, ltb,
}
use p2ser.Text.{Text, join, split, starts_with}
use p2ser.Backend.Store.Cursor.{has_prefix-append, has_prefix}
use p2ser.Backend.Store.Library.{take}
use p2ser.Backend.Files.{
  slash, render, clean, is_under, joined_path, dir_of, FileCall, ZipEntry, unzip_file, unzip_entry,
  safe_unzip, mkdir_all, write_file, out_parts, max_size,
}
use p2ser.Backend.Files.Closed.{closed}
use p2ser.Backend.Files.Inside.{is_under-render}
use p2ser.Backend.Files.Clean.{
  IsSegment, segments, clean-rooted, clean-joined_path, joined_path-render, out_parts-split,
}

-- A file of an archive by the names of its path, and what it holds.
pub record Member : Type 0 where
  pub top : Text
  pub below : List Text
  pub bytes : Text

abbrev pub entry_of : Member → ZipEntry
entry_of m = record {
  entry_name = join slash (m.top ∷ m.below);
  is_dir = false;
  uncompressed_size = length m.bytes;
  content = m.bytes;
  readable = true;
}

-- Where a file of the archive belongs.
abbrev pub place : List Text → Member → Text
place ds m = render true (ds ++ m.top ∷ m.below)

-- Every file at its place, after the directory that it lies in.
abbrev pub extracted : List Text → List Member → List FileCall
extracted ds [] = []
extracted ds (m ∷ ms) =
    mkdir_all (dir_of (place ds m)) ∷ write_file (place ds m) m.bytes ∷ extracted ds ms

closed-append : (ps qs : List Text) → closed (ps ++ qs) ≡ closed ps ++ closed qs
closed-append [] qs = refl
closed-append (p ∷ ps) qs =
    ap (λ s. p ++ slash ∷ s) (closed-append ps qs)
    ∙ sym (append_assoc p (slash ∷ closed ps) (closed qs))

pub is_under-append :
    (d : Text) (ds ps : List Text)
    → is_under (render true (d ∷ ds)) (render true (d ∷ ds ++ ps)) ≡ true
is_under-append d ds ps =
    is_under-render d d ds (ds ++ ps)
    ∙ ap (has_prefix (closed (d ∷ ds))) (closed-append (d ∷ ds) ps)
    ∙ has_prefix-append (closed (d ∷ ds)) (closed ps)

take-length : (n : ℕ) (s : Text) → length s ≤ n → take n s ≡ s
take-length zero [] h = refl
take-length zero (c ∷ s) h = absurd (omega (arith, h))
take-length (suc n) [] h = refl
take-length (suc n) (c ∷ s) h = ap (◌∷◌ c) (take-length n s (omega (arith, h)))

-- Names all the way, and no more than 200 MB.
abbrev pub Fits : Member → Type 0
Fits m = All IsSegment (m.top ∷ m.below) × (length m.bytes ≤ max_size)

module _ (dest d : Text) (ds : List Text) (rooted : starts_with slash dest ≡ true)
    (deep : segments dest ≡ d ∷ ds) where
  joined_path-place :
      (m : Member)
      → All IsSegment (m.top ∷ m.below)
      → joined_path dest (entry_of m).entry_name ≡ place (d ∷ ds) m
  joined_path-place m h =
      joined_path-render dest (entry_of m).entry_name rooted
      ∙ ap (λ ps. render true (out_parts true ps (split slash (join slash (m.top ∷ m.below))))) deep
      ∙ ap (render true) (out_parts-split true (d ∷ ds) m.top m.below h)

  passes :
      (m : Member)
      → All IsSegment (m.top ∷ m.below)
      → is_under (clean dest) (clean (joined_path dest (entry_of m).entry_name)) ≡ true
  passes m h =
      ap (is_under (clean dest))
        (clean-joined_path dest (entry_of m).entry_name rooted ∙ joined_path-place m h)
      ∙ ap (λ r. is_under r (place (d ∷ ds) m)) (clean-rooted dest rooted ∙ ap (render true) deep)
      ∙ is_under-append d ds (m.top ∷ m.below)

  not_large : (m : Member) → length m.bytes ≤ max_size → ltb max_size (length m.bytes) ≡ false
  not_large m h = ground (arith, h)

  unzip_entry-entry_of :
      (m : Member)
      → Fits m
      → unzip_entry (λ _. true) dest (entry_of m) ≡ (extracted (d ∷ ds) (m ∷ []), true)
  unfolding unzip_entry unzip_file
  unzip_entry-entry_of m (h, size) =
      rw (passes m h, not_large m size, joined_path-place m h, take-length max_size m.bytes size)
        refl

  -- An archive of files whose paths are made of names, none of more than 200 MB, is extracted in
  -- full where the file system takes all calls: each file is written at its place with its content
  -- after the directory it lies in, in the order of the archive, and there is no error, provided
  -- that the path of the directory starts at the root and names something below it.
  pub safe_unzip-extracted :
      (ms : List Member)
      → All Fits ms
      → safe_unzip (λ _. true) dest (map entry_of ms) ≡ (extracted (d ∷ ds) ms, true)
  unfolding safe_unzip
  safe_unzip-extracted [] h = refl
  safe_unzip-extracted (m ∷ ms) (h, hs) =
      rw (unzip_entry-entry_of m h, safe_unzip-extracted ms hs) refl
