-- ===== src/Backend/Volume.antt =====
-- `resolveVolumeSrc` of backend/internal/engine/containerd.go: the path of the machine that a volume
-- of a pod stands for. The directory for temporary files and the working directory of the process
-- are arguments.
pub mod Prefix
pub mod Accepted
pub mod Dots
use p2ser.Base.{
  Bool, true, false, not, ◌&&◌, ◌||◌, List, [], ◌∷◌, ◌++◌, if◌then◌else◌, Option, none, some,
}
use p2ser.Text.{Text, codes, equal, truthy_text, starts_with}
use p2ser.Backend.Store.Cursor.{has_prefix}
use p2ser.Backend.Files.{slash, clean, joined_path}

abbrev pub named_volume_dir : Text
named_volume_dir = codes "/var/lib/p2ser/volumes"

-- The directory for temporary files that a project may use
unfoldable pub allowed_tmp : Text → Text → Text
unfolding joined_path
allowed_tmp tmp project = joined_path tmp (codes "p2ser-project-" ++ project)

-- An absolute path
unfoldable pub resolve_absolute : Text → Text → Text → Option Text
unfolding allowed_tmp clean
resolve_absolute tmp project src =
    let path = clean src in
    let allowed = allowed_tmp tmp project in
    if has_prefix named_volume_dir path
    then some path
    else if has_prefix tmp path
    then if equal path allowed || has_prefix (allowed ++ slash ∷ []) path then some path else none
    else none

-- `filepath.Abs`, where the working directory is known, or else the path as it is
unfoldable pub absolute_or_self : Option Text → Text → Text
unfolding joined_path
absolute_or_self none src = src
absolute_or_self (some cwd) src = joined_path cwd src

-- A path that begins with `./` or `../`
unfoldable pub resolve_relative : Option Text → Text → Option Text
unfolding absolute_or_self clean
resolve_relative cwd src =
    if has_prefix (codes "..") (clean src) then none else some (absolute_or_self cwd src)

-- A name
unfoldable pub resolve_named : Text → Option Text
unfolding joined_path clean
resolve_named src =
    let resolved = joined_path named_volume_dir src in
    if has_prefix named_volume_dir (clean resolved) then some resolved else none

-- `resolveVolumeSrc`, where `none` is an error
unfoldable pub resolve_volume_src : Text → Option Text → Text → Text → Option Text
unfolding resolve_absolute resolve_relative resolve_named
resolve_volume_src tmp cwd project src =
    if starts_with slash src
    then resolve_absolute tmp project src
    else if has_prefix (codes "./") src || has_prefix (codes "../") src
    then resolve_relative cwd src
    else resolve_named src
