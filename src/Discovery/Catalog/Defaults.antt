-- ===== src/Discovery/Catalog/Defaults.antt =====
-- The default of every browser in the catalog is one of its versions.
use selenwright.Prelude.{
  ◌≡◌, refl, Bool, true, false, List, [], ◌∷◌, Option, some, Str, StrMap, lookup, insert, is_some,
  elem, is_empty, lookup-insert, ◌==◌, ==_refl, if◌then◌else◌, arith, ◌&&◌, Bool-cases,
  Option-cases, inl, inr, not, ltb_ℤ, pos, subst,
}
use selenwright.Config.{Browser, Versions}
use selenwright.Discovery.Scan.{DiscoveredImage}
use selenwright.Discovery.Adopted.{AdoptedStore, is_adopted}
use selenwright.Discovery.Catalog.{
  Sorting, highest_version, last_or_empty, keys, versions_of, add_image, add_images, fill_default,
  build_browsers_from_adopted, compare_versions,
}
use selenwright.Discovery.Catalog.Offers.{lookup-fill_defaults}

-- sort.Slice rearranges: it neither adds nor loses an element.
abbrev pub Rearranges : Sorting → Type 0
Rearranges o = (lt : Str → Str → Bool) (ss : List Str) (s : Str) → elem s (o.sort lt ss) ≡ elem s ss

elem-last_or_empty :
    (s : Str) (ss : List Str) → elem s ss ≡ true → elem (last_or_empty ss) ss ≡ true
unfolding elem
elem-last_or_empty s [] h = cc
elem-last_or_empty s (k ∷ []) h = ground (arith, ==_refl k)
elem-last_or_empty s (k ∷ j ∷ ks) h = ground (arith, elem-last_or_empty j (j ∷ ks), ==_refl j)

elem-keys {ℓ} : {V : Type ℓ} (k : Str) (m : StrMap V) → elem k (keys m) ≡ is_some (lookup k m)
unfolding elem lookup
elem-keys k [] = refl
elem-keys k ((j, v) ∷ m) = ground (arith, elem-keys k m)

highest_version-listed :
    (o : Sorting) (versions : StrMap (Option Browser))
    → Rearranges o
    → is_empty versions ≡ false
    → is_some (lookup (highest_version o versions) versions) ≡ true
unfolding highest_version elem
highest_version-listed o [] fair h = cc
highest_version-listed o ((k, v) ∷ m) fair h =
    let lt : Str → Str → Bool = λ a b. ltb_ℤ (compare_versions o.scan_int a b) (pos 0) in
    let ks = keys ((k, v) ∷ m) in
    let first : elem k (o.sort lt ks) ≡ true = ground (arith, fair lt ks k, ==_refl k) in
    let last = elem-last_or_empty k (o.sort lt ks) first in
    let highest = highest_version o ((k, v) ∷ m) in
    ground (arith, last, fair lt ks highest, elem-keys highest ((k, v) ∷ m))

-- What the first loop makes of a browser: it has a version, and a default that is set is one.
abbrev IsSound : Versions → Type 0
IsSound bv =
    ((not (is_empty bv.default) && not (is_some (lookup bv.default bv.versions))) ≡ false)
    × (is_empty bv.versions ≡ false)

abbrev AllSound : StrMap Versions → Type 0
AllSound browsers = (name : Str) (bv : Versions) → lookup name browsers ≡ some bv → IsSound bv

insert-nonempty {ℓ} :
    {V : Type ℓ} (k : Str) (v : V) (m : StrMap V) → is_empty (insert k v m) ≡ false
unfolding insert
insert-nonempty k v [] = refl
insert-nonempty k v ((j, w) ∷ m) = ground arith

-- The versions and the default behind one more image.
added-IsSound :
    (di : DiscoveredImage) (default : Str) (versions : StrMap (Option Browser))
    → (not (is_empty default) && not (is_some (lookup default versions))) ≡ false
    → IsSound (record {
      default = if di.is_default then di.version else default;
      versions = insert di.version (some di.browser) versions;
    })
added-IsSound di default versions h = (
  ground (
    arith,
    h,
    lookup-insert di.version di.version (some di.browser) versions,
    ==_refl di.version,
    lookup-insert di.version default (some di.browser) versions,
  ),
  insert-nonempty di.version (some di.browser) versions,
)

old-listed :
    (name : Str) (browsers : StrMap Versions)
    → AllSound browsers
    → (not (is_empty (versions_of name browsers).default)
        && not (
            is_some
              (lookup (versions_of name browsers).default (versions_of name browsers).versions)))
      ≡ false
old-listed name browsers h = elim (Option-cases (lookup name browsers)) [
  | inl missing ↦ ground (arith, missing)
  | inr (bv, there) ↦ ground (arith, there, (h name bv there).0)
]

add_image-AllSound :
    (store : AdoptedStore) (di : DiscoveredImage) (browsers : StrMap Versions)
    → AllSound browsers
    → AllSound (add_image store di browsers)
unfolding add_image
add_image-AllSound store di browsers h name bv e =
    let old = versions_of di.name browsers in
    elim (Bool-cases (is_adopted di.digest store)) [
      | inr other ↦ h name bv (ground (arith, other, e))
      | inl there ↦
          let added : Versions = record {
            default = if di.is_default then di.version else old.default;
            versions = insert di.version (some di.browser) old.versions;
          } in
          let put = lookup-insert di.name name added browsers in
          elim (Bool-cases (di.name == name)) [
            | inr apart ↦ h name bv (ground (arith, there, put, apart, e))
            | inl same ↦
                let is_added : added ≡ bv = ground (arith, there, put, same, e) in
                subst IsSound is_added
                  (added-IsSound di old.default old.versions (old-listed di.name browsers h))
          ]
    ]

add_images-AllSound :
    (store : AdoptedStore) (ds : List DiscoveredImage) (browsers : StrMap Versions)
    → AllSound browsers
    → AllSound (add_images store ds browsers)
unfolding add_images
add_images-AllSound store [] browsers h = h
add_images-AllSound store (di ∷ ds) browsers h =
    add_images-AllSound store ds (add_image store di browsers)
      (add_image-AllSound store di browsers h)

fill_default-listed :
    (o : Sorting) (bv : Versions)
    → Rearranges o
    → IsSound bv
    → is_some (lookup (fill_default o bv).default (fill_default o bv).versions) ≡ true
unfolding fill_default
fill_default-listed o bv fair (listed, nonempty) = elim (Bool-cases (is_empty bv.default)) [
  | inl e ↦ rw e (highest_version-listed o bv.versions fair nonempty)
  | inr e ↦ rw e (ground (arith, listed, e))
]

-- Where sorting rearranges, the default of every browser of the catalog that is built
-- is one of its versions.
build_browsers_from_adopted-default :
    (o : Sorting) (ds : List DiscoveredImage) (store : AdoptedStore) (name : Str) (bv : Versions)
    → Rearranges o
    → lookup name (build_browsers_from_adopted o ds store) ≡ some bv
    → is_some (lookup bv.default bv.versions) ≡ true
unfolding build_browsers_from_adopted lookup
build_browsers_from_adopted-default o ds store name bv fair e =
    let built = add_images store ds [] in
    elim (Option-cases (lookup name built)) [
      | inl missing ↦ absurd (ground (arith, e, missing, lookup-fill_defaults o name built))
      | inr (raw, there) ↦
          let filled : fill_default o raw ≡ bv =
            ground (arith, e, there, lookup-fill_defaults o name built) in
          subst (λ v. is_some (lookup v.default v.versions) ≡ true) filled
            (fill_default-listed o raw fair
              (add_images-AllSound store ds [] (λ n v l. ground (arith, l)) name raw there))
    ]
