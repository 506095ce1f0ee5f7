-- ===== src/Tests/Files.antt =====
-- Archives and paths, and the theorems of Backend/Files at them.
use p2ser.Base.{◌≡◌, refl, arith, map, true, false, List, [], ◌∷◌, All, length, inl, inr}
use p2ser.Text.{Text, codes, equal, includes, join, split_parts}
use p2ser.Backend.Store.Cursor.{has_prefix}
use p2ser.Backend.Files.{
  clean, dir_of, joined_path, ZipEntry, mkdir_all, write_file, safe_unzip, dir_list,
}
use p2ser.Backend.Files.Clean.{segments}
use p2ser.Backend.Files.Inside.{InDir, root_parts, dir_list-InDir}
use p2ser.Backend.Files.Unzip.{CallReaches, safe_unzip-Reaches}
use p2ser.Backend.Files.Extracted.{Member, Fits, entry_of, extracted, safe_unzip-extracted}

abbrev target : Text
target = codes "/tmp/up/"

clean_dots : clean (codes "a/../../b//./c/") ≡ codes "../b/c"
unfolding clean split_parts equal join
clean_dots = refl

clean_root : clean (codes "/../x/..") ≡ codes "/"
unfolding clean split_parts equal join
clean_root = refl

join_empty : joined_path [] (codes "x/./y") ≡ codes "x/y"
unfolding joined_path split_parts equal join
join_empty = refl

abbrev member : Text → Text → ZipEntry
member name bytes = record {
  entry_name = name;
  is_dir = false;
  uncompressed_size = length bytes;
  content = bytes;
  readable = true;
}

abbrev archive : List ZipEntry
archive =
    member (codes "./a/../app/main.go") (codes "x")
    ∷ member (codes "a/../../etc/passwd") (codes "y")
    ∷ member (codes "late") (codes "z")
    ∷ []

-- The entry that leaves the directory ends the extraction.
unzip_slip : safe_unzip (λ _. true) target archive ≡ (
  mkdir_all (codes "/tmp/up/app") ∷ write_file (codes "/tmp/up/app/main.go") (codes "x") ∷ [],
  false,
)
unfolding safe_unzip dir_of join split_parts equal has_prefix includes
unzip_slip = refl

target-segments : segments target ≡ codes "tmp" ∷ codes "up" ∷ []
unfolding segments split_parts equal
target-segments = refl

safe_unzip-Reaches_example :
    All (CallReaches (codes "tmp" ∷ codes "up" ∷ [])) (safe_unzip (λ _. true) target archive).0
safe_unzip-Reaches_example =
    safe_unzip-Reaches (λ _. true) target (codes "tmp") (codes "up" ∷ []) refl target-segments
      archive

abbrev files : List Member
files =
    record { top = codes "app"; below = codes "main.go" ∷ []; bytes = codes "x" }
    ∷ record { top = codes "Dockerfile"; below = []; bytes = codes "y" }
    ∷ []

files-Fits : All Fits files
unfolding equal
files-Fits = ground arith

safe_unzip-extracted_example :
    safe_unzip (λ _. true) target (map entry_of files)
    ≡ (extracted (codes "tmp" ∷ codes "up" ∷ []) files, true)
safe_unzip-extracted_example =
    safe_unzip-extracted target (codes "tmp") (codes "up" ∷ []) refl target-segments files
      files-Fits

listed : dir_list (codes "GET") (codes "/var/lib/p2ser/../p2ser/x") ≡ inr (codes "/var/lib/p2ser/x")
unfolding dir_list join split_parts equal has_prefix
listed = refl

refused : dir_list (codes "GET") (codes "/var/lib/p2ser/../x") ≡ inl 403
unfolding dir_list join split_parts equal has_prefix
refused = refl

dir_list-InDir_example : InDir root_parts (codes "/var/lib/p2ser/x")
dir_list-InDir_example =
    dir_list-InDir (codes "GET") (codes "/var/lib/p2ser/../p2ser/x") (codes "/var/lib/p2ser/x")
      listed
