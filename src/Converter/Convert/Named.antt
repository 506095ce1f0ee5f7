-- ===== src/Converter/Convert/Named.antt =====
-- Named volumes: which entries the second loop rewrites.
use p2ser.Base.{
  ◌≡◌, refl, ap, arith, [], ◌∷◌, ◌++◌, Option, some, none, All-append, true, false, ◌==◌, ℕ,
}
use mathlib.Core.Path.{ap₂}
use p2ser.Json.Platform.{Platform}
use p2ser.Json.{
  Json, null, bool, num, str, arr, obj, Items, nil, cons, Fields, end, field, get_field, put_field,
}
use p2ser.Text.Split.{Lacks, split_parts-append, split_parts-Lacks, join-split}
use p2ser.Text.{Text, codes, includes, starts_with, split}
use p2ser.Converter.Convert.Volumes.{
  bind_device, flatten_fields, flatten_service, device_of, flatten_text, flatten_value,
  flatten_items,
}

includes-Lacks : (c : ℕ) (s : Text) → Lacks c s → includes c s ≡ false
unfolding includes
includes-Lacks c [] h = refl
includes-Lacks c (d ∷ s) (p, h) = ground (arith, includes-Lacks c s h)

includes-append : (c : ℕ) (s t : Text) → includes c (s ++ c ∷ t) ≡ true
unfolding includes
includes-append c [] t = ground arith
includes-append c (d ∷ s) t = ground (arith, includes-append c s t)

-- A name of a volume: no path, and no colon.
pub record IsVolumeName (name : Text) : Type 0 where
  pub no_slash : Lacks b'/' name
  pub no_colon : Lacks b':' name
  pub no_dot : starts_with b'.' name ≡ false

module _ (js : Platform) where
  open js use {Num}

  starts_with-append :
      (c : ℕ) (name rest : Text)
      → (c == b':') ≡ false
      → starts_with c name ≡ false
      → starts_with c (name ++ b':' ∷ rest) ≡ false
  starts_with-append c [] rest n h = ground arith
  starts_with-append c (d ∷ s) rest n h = h

  -- The name of the volume, or the device of its definition as a text.
  abbrev pub device_or : Option (Json Num) → Text → Text
  device_or none name = name
  device_or (some (str device)) name = device
  device_or (some v) name = js.json_text v

  bind_device-device_or :
      (device : Option (Json Num)) (name rest : Text)
      → bind_device js device (name ++ b':' ∷ rest) (split b':' rest)
        ≡ device_or device name ++ b':' ∷ rest
  unfolding bind_device
  bind_device-device_or none name rest = refl
  bind_device-device_or (some (str d)) name rest = rw (join-split b':' rest)
  bind_device-device_or (some null) name rest = rw (join-split b':' rest)
  bind_device-device_or (some (bool _)) name rest = rw (join-split b':' rest)
  bind_device-device_or (some (num _)) name rest = rw (join-split b':' rest)
  bind_device-device_or (some (arr _)) name rest = rw (join-split b':' rest)
  bind_device-device_or (some (obj _)) name rest = rw (join-split b':' rest)

  -- An entry `name:rest` that holds no slash, where the definition of `name` has a device, becomes
  -- `device:rest`; where it has none, the entry stays.
  pub flatten_text_named :
      (vols : Option (Json Num)) (name rest : Text)
      → IsVolumeName name
      → Lacks b'/' rest
      → flatten_text js vols (name ++ b':' ∷ rest)
        ≡ device_or (device_of js vols name) name ++ b':' ∷ rest
  unfolding flatten_text
  flatten_text_named vols name rest h g =
      rw
        (
          includes-Lacks b'/' (name ++ b':' ∷ rest)
              (All-append _ name (b':' ∷ rest) h.no_slash (omega arith, g)),
          starts_with-append b'.' name rest refl h.no_dot,
          split_parts-append b':' name rest,
          split_parts-Lacks b':' name h.no_colon,
        )
        (bind_device-device_or (device_of js vols name) name rest)

  -- An entry with a path in it: a value that is no text, or a text with a slash.
  abbrev pub HasPath : Json Num → Type 0
  HasPath (str v) = includes b'/' v ≡ true
  HasPath _ = Unit

  abbrev pub AllHavePath : Items Num → Type 0
  AllHavePath nil = Unit
  AllHavePath (cons v vs) = HasPath v × AllHavePath vs

  flatten_value_path :
      (vols : Option (Json Num)) (v : Json Num) → HasPath v → flatten_value js vols v ≡ v
  unfolding flatten_value
  flatten_value_path vols (str v) h = rw h
  flatten_value_path vols null h = refl
  flatten_value_path vols _ h = refl

  pub flatten_items_paths :
      (vols : Option (Json Num)) (vs : Items Num) → AllHavePath vs → flatten_items js vols vs ≡ vs
  unfolding flatten_items
  flatten_items_paths vols nil h = refl
  flatten_items_paths vols (cons v vs) (p, h) =
      ap₂ cons (flatten_value_path vols v p) (flatten_items_paths vols vs h)

  put_same :
      (svc : Fields Num) (k : Text) (v : Json Num)
      → get_field svc k ≡ some v
      → put_field svc k v ≡ svc
  unfolding get_field put_field
  put_same end k v h = absurd (cc)
  put_same (field j w fs) k v h = ground (arith, put_same fs k v)

  -- A service whose volumes all hold a slash, as `name:/path` does, is left as it is, also where
  -- the definition of the named volume has a device.
  pub flatten_service_paths :
      (vols : Option (Json Num)) (svc : Fields Num) (vs : Items Num)
      → get_field svc (codes "volumes") ≡ some (arr vs)
      → AllHavePath vs
      → flatten_service js vols (obj svc) ≡ obj svc
  unfolding flatten_service flatten_fields
  flatten_service_paths vols svc vs e h =
      rw (e, flatten_fields)
        (ap obj (rw (flatten_items_paths vols vs h) (put_same svc (codes "volumes") (arr vs) e)))
