-- ===== src/Discovery/Catalog/Offers.antt =====
-- The catalog offers what is adopted, and its defaults are versions that it has.
use selenwright.Prelude.{
  ◌≡◌, refl, Bool, List, [], ◌∷◌, none, some, Str, StrMap, lookup, insert, is_some, any, is_empty,
  lookup-insert, ◌==◌, ==_iff, if◌then◌else◌, arith, ◌&&◌, ◌||◌, Bool-cases, Option-cases, inl, inr,
  ◌∙◌,
}
use selenwright.Config.{Versions}
use selenwright.Discovery.Scan.{DiscoveredImage}
use selenwright.Discovery.Adopted.{AdoptedStore, is_adopted}
use selenwright.Discovery.Catalog.{
  Sorting, versions_of, add_image, add_images, fill_default, fill_defaults,
  build_browsers_from_adopted,
}

-- The catalog has the version of the browser.
abbrev pub offers : Str → Str → StrMap Versions → Bool
offers name version browsers = is_some (lookup version (versions_of name browsers).versions)

-- The image is adopted, and is the version of the browser.
abbrev pub provides : AdoptedStore → Str → Str → DiscoveredImage → Bool
provides store name version di =
    is_adopted di.digest store && di.name == name && di.version == version

add_image-offers :
    (store : AdoptedStore) (name version : Str) (di : DiscoveredImage) (browsers : StrMap Versions)
    → offers name version (add_image store di browsers)
      ≡ (provides store name version di || offers name version browsers)
unfolding add_image
add_image-offers store name version di browsers = elim (Bool-cases (is_adopted di.digest store)) [
  | inr other ↦ ground (arith, other)
  | inl there ↦
      let bv = versions_of di.name browsers in
      let added : Versions = record {
        default = if di.is_default then di.version else bv.default;
        versions = insert di.version (some di.browser) bv.versions;
      } in
      rw there (
        ground (
          arith,
          lookup-insert di.name name added browsers,
          lookup-insert di.version version (some di.browser) bv.versions,
          ==_iff di.name name,
        ))
]

add_images-offers :
    (store : AdoptedStore) (name version : Str) (ds : List DiscoveredImage)
    (browsers : StrMap Versions)
    → offers name version (add_images store ds browsers)
      ≡ (any (provides store name version) ds || offers name version browsers)
unfolding add_images
add_images-offers store name version [] browsers = refl
add_images-offers store name version (di ∷ ds) browsers =
    add_images-offers store name version ds (add_image store di browsers)
    ∙ ground (arith, add_image-offers store name version di browsers)

pub lookup-fill_defaults :
    (o : Sorting) (name : Str) (browsers : StrMap Versions)
    → lookup name (fill_defaults o browsers)
      ≡ (elim (lookup name browsers) [ none ↦ none | some bv ↦ some (fill_default o bv) ])
unfolding fill_defaults lookup
lookup-fill_defaults o name [] = refl
lookup-fill_defaults o name ((other, bv) ∷ browsers) =
    ground (arith, lookup-fill_defaults o name browsers)

fill_default-versions : (o : Sorting) (bv : Versions) → (fill_default o bv).versions ≡ bv.versions
unfolding fill_default
fill_default-versions o bv = elim (Bool-cases (is_empty bv.default)) [
  | inl e ↦ rw e refl
  | inr e ↦ rw e refl
]

fill_defaults-offers :
    (o : Sorting) (name version : Str) (browsers : StrMap Versions)
    → offers name version (fill_defaults o browsers) ≡ offers name version browsers
fill_defaults-offers o name version browsers = elim (Option-cases (lookup name browsers)) [
  | inl missing ↦ ground (arith, missing, lookup-fill_defaults o name browsers)
  | inr (bv, there) ↦
      ground (arith, there, lookup-fill_defaults o name browsers, fill_default-versions o bv)
]

-- The catalog that is built has a version of a browser exactly if one of the images is adopted and is
-- labelled with the two.
pub build_browsers_from_adopted-offers :
    (o : Sorting) (ds : List DiscoveredImage) (store : AdoptedStore) (name version : Str)
    → offers name version (build_browsers_from_adopted o ds store)
      ≡ any (provides store name version) ds
unfolding build_browsers_from_adopted lookup
build_browsers_from_adopted-offers o ds store name version =
    fill_defaults-offers o name version (add_images store ds [])
    ∙ ground (arith, add_images-offers store name version ds [])
