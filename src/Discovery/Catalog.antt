-- ===== src/Discovery/Catalog.antt =====
-- discovery/catalog.go: the catalog of browsers from the images that are adopted.
pub mod Offers
pub mod Defaults
use selenwright.Prelude.{
  ◌+◌, ◌-◌, Bool, true, false, List, [], ◌∷◌, ◌++◌, Option, none, some, Str, StrMap, lookup, insert,
  is_empty, length, split, map, ltb, ltb_ℤ, sub_ℕ, eqb, ◌||◌, ◌^◌, if◌then◌else◌, ℤ, pos, negsuc,
  ◌+ℤ◌, pos_part, neg_part,
}
use selenwright.Config.{Browser, Versions}
use selenwright.Discovery.Scan.{DiscoveredImage}
use selenwright.Discovery.Adopted.{AdoptedStore, is_adopted, is_dismissed}

-- `int` has 64 bits, and its subtraction wraps around.
abbrev pub wrap_int : ℤ → ℤ
wrap_int n =
    if ltb_ℤ n (negsuc (2 ^ 63 - 1))
    then n +ℤ pos (2 ^ 64)
    else if ltb_ℤ n (pos (2 ^ 63))
    then n
    else n +ℤ negsuc (2 ^ 64 - 1)

abbrev pub sub_int : ℤ → ℤ → ℤ
sub_int a b = wrap_int (sub_ℕ (pos_part a + neg_part b) (pos_part b + neg_part a))

-- The order of strings, byte by byte.
unfoldable pub str_lt : Str → Str → Bool
str_lt [] [] = false
str_lt [] (b ∷ t) = true
str_lt (a ∷ s) [] = false
str_lt (a ∷ s) (b ∷ t) = if eqb a b then str_lt s t else ltb a b

-- compareVersions on the segments; `scan_int` is fmt.Sscanf with `%d`.
unfoldable pub compare_segments : (Str → Option ℤ) → List Str → List Str → ℤ
unfolding str_lt
compare_segments scan_int [] pb = sub_ℕ 0 (length pb)
compare_segments scan_int (a ∷ pa) [] = sub_ℕ (length (a ∷ pa)) 0
compare_segments scan_int (a ∷ pa) (b ∷ pb) =
    let rest = compare_segments scan_int pa pb in
    let as_text = if str_lt a b then negsuc 0 else if str_lt b a then pos 1 else rest in
    elim (scan_int a) [
      | none ↦ as_text
      | some na ↦ elim (scan_int b) [
        | none ↦ as_text
        | some nb ↦ if ltb_ℤ na nb || ltb_ℤ nb na then sub_int na nb else rest
      ]
    ]

unfoldable pub compare_versions : (Str → Option ℤ) → Str → Str → ℤ
unfolding compare_segments
compare_versions scan_int a b = compare_segments scan_int (split b'.' a) (split b'.' b)

abbrev pub last_or_empty : List Str → Str
last_or_empty [] = []
last_or_empty (k ∷ []) = k
last_or_empty (k ∷ j ∷ ks) = last_or_empty (j ∷ ks)

abbrev pub keys {ℓ} : {V : Type ℓ} → StrMap V → List Str
keys m = map (λ e. e.0) m

-- What is not in the repository: fmt.Sscanf with `%d`, and sort.Slice on strings.
pub record Sorting : Type 0 where
  pub scan_int : Str → Option ℤ
  pub sort : (Str → Str → Bool) → List Str → List Str

unfoldable pub highest_version : Sorting → StrMap (Option Browser) → Str
unfolding compare_versions
highest_version o versions =
    last_or_empty (o.sort (λ a b. ltb_ℤ (compare_versions o.scan_int a b) (pos 0)) (keys versions))

-- The versions of a browser that the catalog has none of yet.
abbrev pub no_versions : Versions
no_versions = record { default = []; versions = [] }

abbrev pub versions_of : Str → StrMap Versions → Versions
versions_of name browsers = elim (lookup name browsers) [ none ↦ no_versions | some bv ↦ bv ]

-- One round of the first loop of buildBrowsersFromAdopted.
unfoldable pub add_image : AdoptedStore → DiscoveredImage → StrMap Versions → StrMap Versions
add_image store di browsers =
    let bv = versions_of di.name browsers in
    if is_adopted di.digest store
    then insert di.name
        (record {
          default = if di.is_default then di.version else bv.default;
          versions = insert di.version (some di.browser) bv.versions;
        })
        browsers
    else browsers

unfoldable pub add_images : AdoptedStore → List DiscoveredImage → StrMap Versions → StrMap Versions
unfolding add_image
add_images store [] browsers = browsers
add_images store (di ∷ ds) browsers = add_images store ds (add_image store di browsers)

-- The second loop.
unfoldable pub fill_default : Sorting → Versions → Versions
unfolding highest_version
fill_default o bv =
    if is_empty bv.default then record bv { default = highest_version o bv.versions } else bv

unfoldable pub fill_defaults : Sorting → StrMap Versions → StrMap Versions
unfolding fill_default
fill_defaults o [] = []
fill_defaults o ((name, bv) ∷ browsers) = (name, fill_default o bv) ∷ fill_defaults o browsers

unfoldable pub build_browsers_from_adopted :
    Sorting → List DiscoveredImage → AdoptedStore → StrMap Versions
unfolding add_images fill_defaults
build_browsers_from_adopted o discovered store = fill_defaults o (add_images store discovered [])

unfoldable pub filter_unadopted : List DiscoveredImage → AdoptedStore → List DiscoveredImage
filter_unadopted [] store = []
filter_unadopted (di ∷ ds) store =
    if is_adopted di.digest store || is_dismissed di.digest store
    then filter_unadopted ds store
    else di ∷ filter_unadopted ds store

-- The JSON file to fall back to: none is configured or there, it does not load, or what it holds.
pub data Fallback : Type 0 where
  no_file load_fails : Fallback
  loads : StrMap Versions → Fallback

pub data AssembleError : Type 0 where
  scan_failed load_failed : AssembleError

-- AssembleCatalog behind the scan: the new catalog, and whether it returns an error.
unfoldable pub assemble_catalog :
    Sorting
    → AdoptedStore
    → Fallback
    → List DiscoveredImage
    → StrMap Versions
    → StrMap Versions × Option AssembleError
unfolding build_browsers_from_adopted
assemble_catalog o store fallback discovered cfg =
    let browsers = build_browsers_from_adopted o discovered store in
    if is_empty browsers
    then (elim fallback [
      | no_file ↦ (cfg, none)
      | load_fails ↦ (cfg, some load_failed)
      | loads loaded ↦ (loaded, none)
    ])
    else (browsers, none)
