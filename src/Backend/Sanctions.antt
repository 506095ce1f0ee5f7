-- ===== src/Backend/Sanctions.antt =====
-- `BanIP` and `ApplyGeoIPSanctions` of backend/internal/network/network.go, without the rules of
-- iptables. The command ipset is a parameter, and so are the answers of the server that lists the
-- addresses of a country.
pub mod Swapped
use p2ser.Base.{
  ◌≡◌, Bool, true, false, not, ◌&&◌, ◌||◌, List, [], ◌∷◌, ◌++◌, if◌then◌else◌, Option, none, some,
}
use p2ser.Dict.{Dict, get, put}
use p2ser.Text.{Text, codes, equal, truthy_text, starts_with, split, join}
use p2ser.Backend.EnvFile.{trim_space}

unfoldable pub holds : List Text → Text → Bool
holds [] x = false
holds (y ∷ ys) x = equal y x || holds ys x

-- Sets of addresses by name, and the commands of ipset, with whether they went well. A swap that
-- went well exchanges the entries of two sets; entries that are added are there besides those
-- before; a new set is empty; and the end of another set changes nothing. The last two operations are what the errors
-- of the request and of the file of a country say.
pub record IpSet : Type 1 where
  pub Sets : Type 0
  pub has : Sets → Text → Text → Bool
  pub create : Sets → Text → Sets × Bool
  pub add : Sets → Text → Text → Sets × Bool
  pub restore : Sets → Text → List Text → Sets × Bool
  pub swap : Sets → Text → Text → Sets × Bool
  pub destroy : Sets → Text → Sets
  pub fetch_error : Text → Text
  pub cache_error : Text → Text
  pub has-create : (s : Sets) (a x : Text) → (create s a).1 ≡ true → has (create s a).0 a x ≡ false
  pub has-restore :
      (s : Sets) (a x : Text) (xs : List Text)
      → (restore s a xs).1 ≡ true
      → has (restore s a xs).0 a x ≡ (has s a x || holds xs x)
  pub has-swap :
      (s : Sets) (a b x : Text) → (swap s a b).1 ≡ true → has (swap s a b).0 b x ≡ has s a x
  pub has-destroy :
      (s : Sets) (a b x : Text) → equal a b ≡ false → has (destroy s a) b x ≡ has s b x

abbrev pub main_set : Text
main_set = codes "p2ser_sanctions"

-- The lines of a zone file that are entries
unfoldable pub zone_entries : List Text → List Text
zone_entries [] = []
zone_entries (line ∷ lines) =
    let ip = trim_space line in
    let rest = zone_entries lines in
    if truthy_text ip && not (starts_with b'#' ip) then ip ∷ rest else rest

unfoldable pub entries_of : Text → List Text
unfolding zone_entries
entries_of data_text = zone_entries (split b'\n' data_text)

-- `strings.Join(allErrors, "; ")`
unfoldable pub join_errors : List Text → Text
join_errors [] = []
join_errors (e ∷ []) = e
join_errors (e ∷ f ∷ es) = e ++ codes "; " ++ join_errors (f ∷ es)

module _ (lib : IpSet) where
  open lib use {Sets}

  -- `BanIP`, where `valid` is what `net.ParseIP` says
  unfoldable pub ban_ip : (Text → Bool) → Sets → Text → Sets × Bool
  ban_ip valid sets ip = if valid ip then lib.add sets main_set ip else (sets, false)

  -- The state of the loop: the sets, the files of the cache, the errors, and `success`
  pub record Filter : Type 0 where
    pub sets : Sets
    pub cache : Dict Text
    pub errors : List Text
    pub success : Bool

  -- `ipset restore`, where there are entries
  unfoldable pub restore_zone : Text → Text → Filter → List Text → Filter
  restore_zone tmp country f [] = f
  restore_zone tmp country f (x ∷ xs) =
      let restored = lib.restore f.sets tmp (x ∷ xs) in
      if restored.1 then record f { sets = restored.0 } else record f {
        sets = restored.0;
        errors = f.errors ++ (country ++ codes ": ipset restore failed") ∷ [];
        success = false;
      }

  -- The file of the cache, where the download failed
  unfoldable pub from_cache : Text → Text → Filter → Option Text → Filter
  unfolding restore_zone entries_of
  from_cache tmp country f none = record f {
    errors =
        f.errors
        ++ (country ++ codes ": cache failed (" ++ lib.cache_error country ++ codes ")") ∷ [];
    success = false;
  }
  from_cache tmp country f (some content) = restore_zone tmp country f (entries_of content)

  unfoldable pub load_zone : Text → Text → Filter → Option Text → Filter
  unfolding from_cache restore_zone entries_of
  load_zone tmp country f none =
      from_cache tmp country
        (record f {
          errors =
              f.errors
              ++ (country ++ codes ": fetch failed (" ++ lib.fetch_error country ++ codes ")") ∷ [];
        })
        (get f.cache country)
  load_zone tmp country f (some content) =
      restore_zone tmp country (record f { cache = put f.cache country content })
        (entries_of content)

  -- The loop over the countries
  unfoldable pub load_zones : (Text → Option Text) → Text → Filter → List Text → Filter
  unfolding load_zone
  load_zones fetch tmp f [] = f
  load_zones fetch tmp f (country ∷ countries) =
      load_zones fetch tmp (load_zone tmp country f (fetch country)) countries

  -- The set after the loop, and the error that the statistics show
  unfoldable pub finish_filter : Text → Filter → Sets × Text
  unfolding join_errors
  finish_filter tmp f =
      if f.success
      then (lib.destroy (lib.swap f.sets tmp main_set).0 tmp, [])
      else (lib.destroy f.sets tmp, join_errors f.errors)

  -- `ApplyGeoIPSanctions`, with the name of its temporary set
  unfoldable pub apply_sanctions :
      (Text → Option Text) → Text → List Text → Sets → Dict Text → Sets × Text
  unfolding load_zones finish_filter
  apply_sanctions fetch tmp countries sets cache = finish_filter tmp (
      load_zones fetch tmp
        (record {
          sets = (lib.create (lib.create sets main_set).0 tmp).0;
          cache = cache;
          errors = [];
          success = true;
        })
        countries)
