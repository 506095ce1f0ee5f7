-- ===== src/Backend/Sanctions/Swapped.antt =====
-- What the set of the firewall holds after `ApplyGeoIPSanctions`.
use p2ser.Base.{
  ◌≡◌, refl, sym, ap, ◌∙◌, arith, inl, inr, Bool-cases, Bool, true, false, ◌||◌, List, [], ◌∷◌,
  ◌++◌, Option, none, some,
}
use p2ser.Dict.{Dict, get, put, get-put}
use p2ser.Text.{Text, codes, equal}
use p2ser.Text.Equality.{equal_iff}
use p2ser.Backend.Sanctions.{
  IpSet, holds, main_set, entries_of, Filter, restore_zone, from_cache, load_zone, load_zones,
  finish_filter, apply_sanctions,
}

abbrev entries_in : Option Text → List Text
entries_in none = []
entries_in (some content) = entries_of content

-- The entries for a country: those that are downloaded, or else those of the cache
abbrev zone_of : Option Text → Option Text → List Text
zone_of (some content) cached = entries_of content
zone_of none cached = entries_in cached

abbrev pub zones : (Text → Option Text) → Dict Text → List Text → List Text
zones fetch cache [] = []
zones fetch cache (c ∷ cs) = zone_of (fetch c) (get cache c) ++ zones fetch cache cs

pub holds-append : (xs ys : List Text) (x : Text) → holds (xs ++ ys) x ≡ (holds xs x || holds ys x)
unfolding holds
holds-append [] ys x = refl
holds-append (z ∷ xs) ys x = ground (arith, holds-append xs ys x)

holds-nil : (x : Text) (b : Bool) → b ≡ (b || holds [] x)
unfolding holds
holds-nil x b = ground arith

-- The same files where nothing is downloaded
abbrev SameCache : (Text → Option Text) → Dict Text → Dict Text → Type 0
SameCache fetch c d = (j : Text) → fetch j ≡ none → get c j ≡ get d j

zone_of-same :
    (o : Option Text) (p q : Option Text) → (o ≡ none → p ≡ q) → zone_of o p ≡ zone_of o q
zone_of-same none p q h = ap entries_in (h refl)
zone_of-same (some content) p q h = refl

zones-same :
    (fetch : Text → Option Text) (c d : Dict Text) (cs : List Text)
    → SameCache fetch c d
    → zones fetch c cs ≡ zones fetch d cs
zones-same fetch c d [] h = refl
zones-same fetch c d (k ∷ cs) h =
    ap (λ z. z ++ zones fetch c cs) (zone_of-same (fetch k) (get c k) (get d k) (h k))
    ∙ ap (λ z. zone_of (fetch k) (get d k) ++ z) (zones-same fetch c d cs h)

clash : {a : Text} → none ≡ some a → ⊥
clash e = ground (arith, e)

or_assoc : (a b c : Bool) → ((a || b) || c) ≡ (a || (b || c))
or_assoc a b c = ground arith

module _ (lib : IpSet) (tmp : Text) where
  -- Where there was no error so far, there was none before, and the entries came to the set.
  abbrev Gains : Filter lib → Filter lib → List Text → Type 0
  Gains f g xs =
      g.success ≡ true
      → (f.success ≡ true)
        × ((x : Text) → lib.has g.sets tmp x ≡ (lib.has f.sets tmp x || holds xs x))

  restore_zone-Gains :
      (country : Text) (f : Filter lib) (xs : List Text)
      → Gains f (restore_zone lib tmp country f xs) xs
  unfolding restore_zone
  restore_zone-Gains country f [] = λ s. (s, λ x. holds-nil x (lib.has f.sets tmp x))
  restore_zone-Gains country f (y ∷ ys) = elim (Bool-cases (lib.restore f.sets tmp (y ∷ ys)).1) [
    | inl ok ↦ rw ok (λ s. (s, λ x. lib.has-restore f.sets tmp x (y ∷ ys) ok))
    | inr failed ↦ rw failed (λ s. absurd (ground (arith, s)))
  ]

  restore_zone-cache :
      (country : Text) (f : Filter lib) (xs : List Text)
      → (restore_zone lib tmp country f xs).cache ≡ f.cache
  unfolding restore_zone
  restore_zone-cache country f [] = refl
  restore_zone-cache country f (y ∷ ys) = elim (Bool-cases (lib.restore f.sets tmp (y ∷ ys)).1) [
    | inl ok ↦ rw ok refl
    | inr failed ↦ rw failed refl
  ]

  from_cache-Gains :
      (country : Text) (f : Filter lib) (p : Option Text)
      → Gains f (from_cache lib tmp country f p) (entries_in p)
  unfolding from_cache
  from_cache-Gains country f none = λ s. absurd (ground (arith, s))
  from_cache-Gains country f (some content) = restore_zone-Gains country f (entries_of content)

  from_cache-cache :
      (country : Text) (f : Filter lib) (p : Option Text)
      → (from_cache lib tmp country f p).cache ≡ f.cache
  unfolding from_cache
  from_cache-cache country f none = refl
  from_cache-cache country f (some content) = restore_zone-cache country f (entries_of content)

  abbrev with_fetch_error : Text → Filter lib → Filter lib
  with_fetch_error country f = record f {
    errors =
        f.errors
        ++ (country ++ codes ": fetch failed (" ++ lib.fetch_error country ++ codes ")") ∷ [];
  }

  load_zone-Gains :
      (country : Text) (f : Filter lib) (o : Option Text)
      → Gains f (load_zone lib tmp country f o) (zone_of o (get f.cache country))
  unfolding load_zone
  load_zone-Gains country f none =
      from_cache-Gains country (with_fetch_error country f) (get f.cache country)
  load_zone-Gains country f (some content) =
      restore_zone-Gains country (record f { cache = put f.cache country content })
        (entries_of content)

  get-put_other :
      (fetch : Text → Option Text) (d : Dict Text) (country content : Text)
      → fetch country ≡ some content
      → SameCache fetch (put d country content) d
  get-put_other fetch d country content e j none_j =
      get-put d country j content ∙ (elim (Bool-cases (equal country j)) [
        | inl same ↦
            let at : fetch j ≡ some content = ap fetch (sym ((equal_iff country j).0 same)) ∙ e in
            absurd (clash (sym none_j ∙ at))
        | inr differs ↦ rw differs refl
      ])

  load_zone-SameCache :
      (fetch : Text → Option Text) (country : Text) (f : Filter lib) (o : Option Text)
      → fetch country ≡ o
      → SameCache fetch (load_zone lib tmp country f o).cache f.cache
  unfolding load_zone
  load_zone-SameCache fetch country f none e j h =
      ap (λ d. get d j)
        (from_cache-cache country (with_fetch_error country f) (get f.cache country))
  load_zone-SameCache fetch country f (some content) e j h =
      ap (λ d. get d j)
        (restore_zone-cache country (record f { cache = put f.cache country content })
          (entries_of content))
      ∙ get-put_other fetch f.cache country content e j h

  load_zones-Gains :
      (fetch : Text → Option Text) (f : Filter lib) (cs : List Text)
      → Gains f (load_zones lib fetch tmp f cs) (zones fetch f.cache cs)
  unfolding load_zones
  load_zones-Gains fetch f [] s = (s, λ x. holds-nil x (lib.has f.sets tmp x))
  load_zones-Gains fetch f (c ∷ cs) s =
      let g = load_zone lib tmp c f (fetch c) in
      let zone = zone_of (fetch c) (get f.cache c) in
      let (later_good, later) = load_zones-Gains fetch g cs s in
      let (good, first) = load_zone-Gains c f (fetch c) later_good in
      let same =
        zones-same fetch g.cache f.cache cs (load_zone-SameCache fetch c f (fetch c) refl) in
      (
        good,
        λ x.
            later x
            ∙ ap (λ b. b || holds (zones fetch g.cache cs) x) (first x)
            ∙ or_assoc (lib.has f.sets tmp x) (holds zone x) (holds (zones fetch g.cache cs) x)
            ∙ ap (λ zs. lib.has f.sets tmp x || (holds zone x || holds zs x)) same
            ∙ ap (λ b. lib.has f.sets tmp x || b)
                (sym (holds-append zone (zones fetch f.cache cs) x)),
      )

  abbrev pub loaded : (Text → Option Text) → List Text → lib.Sets → Dict Text → Filter lib
  loaded fetch countries sets cache =
      load_zones lib fetch tmp
        (record {
          sets = (lib.create (lib.create sets main_set).0 tmp).0;
          cache = cache;
          errors = [];
          success = true;
        })
        countries

  -- Where no zone is missing and no command fails, the set of the firewall holds exactly the entries
  -- of the zones afterwards, downloaded or else from the cache, and the error is empty, whatever the
  -- set held before and whichever downloads failed: an address that was banned and is in no zone is
  -- free again.
  pub apply_sanctions-zones :
      (fetch : Text → Option Text) (countries : List Text) (sets : lib.Sets) (cache : Dict Text)
      → equal tmp main_set ≡ false
      → (lib.create (lib.create sets main_set).0 tmp).1 ≡ true
      → (loaded fetch countries sets cache).success ≡ true
      → (lib.swap (loaded fetch countries sets cache).sets tmp main_set).1 ≡ true
      → ((x : Text)
          → lib.has (apply_sanctions lib fetch tmp countries sets cache).0 main_set x
            ≡ holds (zones fetch cache countries) x)
        × ((apply_sanctions lib fetch tmp countries sets cache).1 ≡ [])
  unfolding apply_sanctions finish_filter
  apply_sanctions-zones fetch countries sets cache other made good swapped =
      let f = loaded fetch countries sets cache in
      let (_, gains) = load_zones-Gains fetch _ countries good in
      rw good (
        λ x.
            lib.has-destroy (lib.swap f.sets tmp main_set).0 tmp main_set x other
            ∙ lib.has-swap f.sets tmp main_set x swapped
            ∙ gains x
            ∙ ap (λ b. b || holds (zones fetch cache countries) x)
                (lib.has-create (lib.create sets main_set).0 tmp x made),
        refl,
      )
