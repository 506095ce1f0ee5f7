-- ===== src/Tests/Volumes.antt =====
-- Volumes of pods, and the theorems of Backend/Volume at them.
use p2ser.Base.{◌≡◌, ◌↔◌, ◌⊎◌, refl, arith, true, [], ◌∷◌, All, some, none}
use p2ser.Text.{Text, codes, equal, join, split_parts}
use p2ser.Backend.Store.Cursor.{has_prefix}
use p2ser.Backend.Files.{clean, render}
use p2ser.Backend.Files.Clean.{IsSegment, segments}
use p2ser.Backend.Files.Inside.{InDir}
use p2ser.Backend.Volume.{resolve_volume_src}
use p2ser.Backend.Volume.Accepted.{LikeVolumes, resolve_volume_src_iff}
use p2ser.Backend.Volume.Dots.{resolve_volume_src-dots}

-- The directory for temporary files
abbrev tmp_dir : Text
tmp_dir = render true (codes "tmp" ∷ [])

abbrev beside : Text
beside = codes "/var/lib/p2ser/volumes-old/data"

-- A directory beside that of the volumes
beside_accepted : resolve_volume_src tmp_dir (some (codes "/")) (codes "shop") beside ≡ some beside
unfolding resolve_volume_src split_parts equal join has_prefix
beside_accepted = refl

named_beside :
    resolve_volume_src tmp_dir (some (codes "/")) (codes "shop") (codes "x/../../volumes-old")
    ≡ some (codes "/var/lib/p2ser/volumes-old")
unfolding resolve_volume_src split_parts equal join has_prefix
named_beside = refl

root_refused :
    resolve_volume_src tmp_dir (some (codes "/")) (codes "shop") (codes "/etc/passwd") ≡ none
unfolding resolve_volume_src split_parts equal join has_prefix
root_refused = refl

tmp-names : All IsSegment (codes "tmp" ∷ [])
unfolding equal
tmp-names = ground arith

shop-named : IsSegment (codes "p2ser-project-shop")
unfolding equal
shop-named = ground arith

resolve_volume_src_iff_example :
    (resolve_volume_src tmp_dir (some (codes "/")) (codes "shop") beside ≡ some (clean beside)) ↔ (
      LikeVolumes (segments beside)
      ⊎ InDir (codes "tmp" ∷ codes "p2ser-project-shop" ∷ []) (clean beside))
resolve_volume_src_iff_example =
    resolve_volume_src_iff (codes "tmp") [] (codes "shop") (some (codes "/")) beside tmp-names
      shop-named refl

other_project : InDir (codes "tmp" ∷ []) (clean (codes "/tmp/p2ser-project-bank/key"))
unfolding clean split_parts equal
other_project = (codes "p2ser-project-bank" ∷ codes "key" ∷ [], ground arith, refl)

resolve_volume_src-dots_example :
    resolve_volume_src tmp_dir
      (some (codes "/"))
      (codes "shop/..")
      (codes "/tmp/p2ser-project-bank/key")
    ≡ some (clean (codes "/tmp/p2ser-project-bank/key"))
resolve_volume_src-dots_example =
    resolve_volume_src-dots (codes "tmp") [] (codes "shop") (some (codes "/"))
      (codes "/tmp/p2ser-project-bank/key") tmp-names shop-named refl other_project
