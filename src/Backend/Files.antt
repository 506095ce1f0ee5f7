-- ===== src/Backend/Files.antt =====
-- The paths that backend/internal/api/api.go takes from a request: `safeUnzip`, `HandleDirList`, and
-- the working directory of `HandleCompose`, with the functions of Go's path/filepath that they
-- call, on Linux.
pub mod Closed
pub mod Clean
pub mod Inside
pub mod Unzip
pub mod Extracted
use p2ser.Base.{
  ◌⊎◌, inl, inr, ℕ, Bool, true, false, not, ◌&&◌, ◌||◌, List, [], ◌∷◌, ◌++◌, ◌==◌, if◌then◌else◌,
  ltb, Option, none, some,
}
use p2ser.Text.{Text, codes, equal, truthy_text, starts_with, includes, split, join}
use p2ser.Backend.Store.Cursor.{has_prefix}
use p2ser.Backend.Store.Library.{take}

-- The loop of `filepath.Clean` at `..`, on the parts that are written so far: the last one goes,
-- unless it is `..` itself; above the root there is nothing.
unfoldable pub out_up : Bool → List Text → List Text
out_up rooted [] = if rooted then [] else codes ".." ∷ []
out_up rooted (p ∷ []) = if equal p (codes "..") then p ∷ codes ".." ∷ [] else []
out_up rooted (p ∷ q ∷ ps) = p ∷ out_up rooted (q ∷ ps)

-- One element of the path, by the cases of the loop.
unfoldable pub out_part : Bool → List Text → Text → List Text
unfolding out_up
out_part rooted out part =
    if not (truthy_text part) || equal part (codes ".")
    then out
    else if equal part (codes "..")
    then out_up rooted out
    else out ++ part ∷ []

unfoldable pub out_parts : Bool → List Text → List Text → List Text
unfolding out_part
out_parts rooted out [] = out
out_parts rooted out (part ∷ parts) = out_parts rooted (out_part rooted out part) parts

abbrev pub slash : ℕ
slash = b'/'

unfoldable pub render : Bool → List Text → Text
render true parts = slash ∷ join slash parts
render false [] = codes "."
render false (p ∷ ps) = join slash (p ∷ ps)

-- `filepath.Clean(path)`
unfoldable pub clean : Text → Text
unfolding out_parts render
clean path =
    let rooted = starts_with slash path in render rooted (out_parts rooted [] (split slash path))

-- `filepath.Join(dir, name)`: empty elements before the first are left out.
unfoldable pub joined_path : Text → Text → Text
unfolding clean
joined_path dir name =
    if truthy_text dir
    then clean (dir ++ slash ∷ name)
    else if truthy_text name
    then clean name
    else []

-- The path up to its last separator.
unfoldable pub up_to_slash : Text → Text
up_to_slash [] = []
up_to_slash (c ∷ s) =
    let rest = up_to_slash s in if c == slash || includes slash s then c ∷ rest else []

-- `filepath.Dir(path)`
unfoldable pub dir_of : Text → Text
unfolding up_to_slash clean
dir_of path = clean (up_to_slash path)

-- The test of the handlers: `strings.HasPrefix(path+"/", root+"/")`.
unfoldable pub is_under : Text → Text → Bool
is_under root path = has_prefix (root ++ slash ∷ []) (path ++ slash ∷ [])

-- An entry of an archive: its name, whether its mode says that it is a directory, the size that it
-- states, the bytes that can be read from it, and whether reading ends without an error.
pub record ZipEntry : Type 0 where
  pub entry_name : Text
  pub is_dir : Bool
  pub uncompressed_size : ℕ
  pub content : Text
  pub readable : Bool

-- What is asked of the file system.
pub data FileCall : Type 0 where
  mkdir_all : Text → FileCall
  write_file : Text → Text → FileCall

abbrev pub max_size : ℕ
max_size = 0xc800000

-- The calls for one entry that is a file, and whether they went well, where `works` says which
-- calls of the file system do.
unfoldable pub unzip_file : (FileCall → Bool) → Text → ZipEntry → List FileCall × Bool
unfolding dir_of
unzip_file works dst f =
    let made = mkdir_all (dir_of dst) in
    let written = write_file dst (take max_size f.content) in
    if not (works made)
    then (made ∷ [], false)
    else if ltb max_size f.uncompressed_size
    then (made ∷ [], false)
    else (made ∷ written ∷ [], works written && f.readable)

-- The body of the loop of `safeUnzip`.
unfoldable pub unzip_entry : (FileCall → Bool) → Text → ZipEntry → List FileCall × Bool
unfolding clean joined_path unzip_file is_under
unzip_entry works dest f =
    let dst = joined_path dest f.entry_name in
    if not (is_under (clean dest) (clean dst))
    then ([], false)
    else if f.is_dir
    then (mkdir_all dst ∷ [], works (mkdir_all dst))
    else unzip_file works dst f

-- The loop of `safeUnzip`, which ends with the first error.
unfoldable pub safe_unzip : (FileCall → Bool) → Text → List ZipEntry → List FileCall × Bool
unfolding unzip_entry
safe_unzip works dest [] = ([], true)
safe_unzip works dest (f ∷ fs) =
    let (calls, good) = unzip_entry works dest f in
    let (later, all_good) = safe_unzip works dest fs in
    if good then (calls ++ later, all_good) else (calls, false)

abbrev pub allowed_root : Text
allowed_root = codes "/var/lib/p2ser"

-- The directory that `HandleDirList` reads, or the status of its refusal
unfoldable pub dir_list : Text → Text → ℕ ⊎ Text
unfolding clean is_under
dir_list method path =
    let dir = if truthy_text path then path else allowed_root in
    if not (equal method (codes "GET"))
    then inl 405
    else if not (is_under allowed_root (clean dir)) && not (equal (clean dir) allowed_root)
    then inl 403
    else inr (clean dir)

-- The working directory that `HandleCompose` takes from the header, or none for a refusal
unfoldable pub checked_working_dir : Text → Option Text
unfolding clean is_under
checked_working_dir header =
    if truthy_text header
    then if is_under allowed_root (clean header) then some (clean header) else none
    else some []
