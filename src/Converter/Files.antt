-- ===== src/Converter/Files.antt =====
-- How the converter chooses among dropped files, and how it names a downloaded manifest.
use p2ser.Base.{Bool, ◌||◌, List, [], ◌∷◌, ◌++◌, ◌+◌, ℕ, if◌then◌else◌, Option, none, some, map}
use p2ser.Text.{Text, codes, equal, within, truthy_text}

pub record File : Type 0 where
  pub name : Text
  pub content : Text

-- `s.endsWith(suffix)`
unfoldable pub has_suffix : Text → Text → Bool
has_suffix suffix [] = equal [] suffix
has_suffix suffix (c ∷ s) = equal (c ∷ s) suffix || has_suffix suffix s

-- ASCII letters in lower case, for the flag `i`
unfoldable pub to_lower : ℕ → ℕ
to_lower c = if within b'A' b'Z' c then c + 32 else c

-- `f.name === '.env' || f.name.endsWith('.env')`
unfoldable pub is_env_file : File → Bool
is_env_file f = equal f.name (codes ".env") || has_suffix (codes ".env") f.name

-- `f.name.match(/\.ya?ml$/i)`
unfoldable pub is_yaml_file : File → Bool
is_yaml_file f =
    has_suffix (codes ".yml") (map to_lower f.name)
    || has_suffix (codes ".yaml") (map to_lower f.name)

-- `files.find(p)`
unfoldable pub find_file : (File → Bool) → List File → Option File
find_file p [] = none
find_file p (f ∷ fs) = if p f then some f else find_file p fs

-- `name.replace(/\.(ya?ml)$/, '')`
unfoldable pub drop_yaml_suffix : Text → Text
drop_yaml_suffix [] = []
drop_yaml_suffix (c ∷ s) =
    let rest = drop_yaml_suffix s in
    if equal (c ∷ s) (codes ".yml") || equal (c ∷ s) (codes ".yaml") then [] else c ∷ rest

-- `a.download` of `downloadManifest`
unfoldable pub download_name : Text → Text
download_name file_name =
    drop_yaml_suffix (if truthy_text file_name then file_name else codes "docker-compose")
    ++ codes ".p2ser.yaml"
