-- ===== src/Tests/Sanctions.antt =====
-- Runs of the sanctions filter with sets of addresses that are lists of entries.
use p2ser.Base.{◌≡◌, refl, true, false, List, [], ◌∷◌, ◌++◌, if◌then◌else◌, Option, none, some}
use p2ser.Dict.{get}
use p2ser.Text.{Text, codes, equal, split_parts}
use p2ser.Text.Equality.{equal_iff}
use p2ser.Backend.EnvFile.{trim_space, trim_right, trim_left, is_white, right_cons}
use p2ser.Backend.Sanctions.{IpSet, holds, main_set, apply_sanctions, entries_of, load_zones}
use p2ser.Backend.Sanctions.Swapped.{holds-append, zones, apply_sanctions-zones}

abbrev Lists : Type 0
Lists = Text → List Text

abbrev with_entries : Lists → Text → List Text → Lists
with_entries s a xs b = if equal a b then xs else s b

abbrev exchange : Lists → Text → Text → Lists
exchange s a b c = if equal b c then s a else (if equal a c then s b else s c)

same : (a : Text) → equal a a ≡ true
same a = (equal_iff a a).1 refl

empty_holds : (s : Lists) (a x : Text) → true ≡ true → holds (with_entries s a [] a) x ≡ false
unfolding holds
empty_holds s a x e = rw (same a) refl

abbrev lists : IpSet
lists = record {
  Sets = Lists;
  has = λ s a x. holds (s a) x;
  create = λ s a. (with_entries s a [], true);
  add = λ s a x. (with_entries s a (s a ++ x ∷ []), true);
  restore = λ s a xs. (with_entries s a (s a ++ xs), true);
  swap = λ s a b. (exchange s a b, true);
  destroy = λ s a. with_entries s a [];
  fetch_error = λ country. codes "HTTP 404";
  cache_error = λ country. codes "no file";
  has-create = empty_holds;
  has-restore = λ s a x xs e. rw (same a) (holds-append (s a) xs x);
  has-swap = λ s a b x e. rw (same b) refl;
  has-destroy = λ s a b x e. rw e refl;
}

abbrev tmp_set : Text
tmp_set = codes "p2ser_sanctions_tmp_1"

abbrev fetch_by : Text → Option Text
fetch_by country = if equal country (codes "by") then some (codes "# by\n5.34.0.0/16\n") else none

abbrev banned_before : Lists
banned_before name = codes "1.2.3.4" ∷ []

-- by is downloaded, ru comes from the cache, and the ban of 1.2.3.4 is gone.
apply_sanctions-zones_example :
    ((x : Text)
      → holds
          ((apply_sanctions lists fetch_by tmp_set
              (codes "ru" ∷ codes "by" ∷ [])
              banned_before
              ((codes "ru", codes "2.56.0.0/14\n") ∷ [])).0
            main_set)
          x
        ≡ holds
            (zones fetch_by
              ((codes "ru", codes "2.56.0.0/14\n") ∷ [])
              (codes "ru" ∷ codes "by" ∷ []))
            x)
    × ((apply_sanctions lists fetch_by tmp_set
          (codes "ru" ∷ codes "by" ∷ [])
          banned_before
          ((codes "ru", codes "2.56.0.0/14\n") ∷ [])).1
        ≡ [])
unfolding holds equal load_zones trim_space trim_right trim_left split_parts is_white right_cons get
apply_sanctions-zones_example =
    apply_sanctions-zones lists tmp_set fetch_by (codes "ru" ∷ codes "by" ∷ []) banned_before
      ((codes "ru", codes "2.56.0.0/14\n") ∷ []) refl refl refl refl

two_zones :
    zones fetch_by ((codes "ru", codes "2.56.0.0/14\n") ∷ []) (codes "ru" ∷ codes "by" ∷ [])
    ≡ codes "2.56.0.0/14" ∷ codes "5.34.0.0/16" ∷ []
unfolding equal get entries_of trim_space trim_right trim_left split_parts is_white right_cons
two_zones = refl
