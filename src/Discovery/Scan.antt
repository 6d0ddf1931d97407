-- ===== src/Discovery/Scan.antt =====
-- discovery/discovery.go: the images that carry the labels of a browser.
pub mod Keys
pub mod Newest
use selenwright.Prelude.{
  ℕ, zero, suc, Bool, List, [], ◌∷◌, ◌++◌, Option, none, some, Str, StrMap, ◌==◌, is_empty, length,
  get_elem?, ◌&&◌, if◌then◌else◌, ℤ, ltb_ℤ, ok, err,
}
use selenwright.Config.{Browser}
use selenwright.Discovery.Labels.{Decoders, parse_labels}

-- `image.Summary`, as far as it is read.
pub record Summary : Type 0 where
  pub id : Str
  pub repo_digests : List Str
  pub repo_tags : List Str
  pub labels : StrMap Str
  pub created : ℤ

-- `image` is the field Image of the browser.
pub record DiscoveredImage : Type 0 where
  pub digest : Str
  pub repo_tags : List Str
  pub browser : Browser
  pub image : Str
  pub name : Str
  pub version : Str
  pub is_default : Bool
  pub created : ℤ

abbrev pub first_or : Str → List Str → Str
first_or default [] = default
first_or default (s ∷ ss) = s

abbrev pub image_digest : Summary → Str
image_digest img = first_or img.id img.repo_digests

-- One round of the loop up to the search for duplicates; `none` where the image is skipped.
unfoldable pub discover : Decoders → Summary → Option DiscoveredImage
discover d img =
    let digest = image_digest img in
    if is_empty digest then none else (elim (parse_labels d img.labels) [
      | err e ↦ none
      | ok p ↦ some (record {
        digest = digest;
        repo_tags = img.repo_tags;
        browser = p.browser;
        image = first_or digest img.repo_tags;
        name = p.name;
        version = p.version;
        is_default = p.is_default;
        created = img.created;
      })
    ])

abbrev pub Key : Type 0
Key = Str × Str

abbrev pub key_of : DiscoveredImage → Key
key_of di = (di.name, di.version)

abbrev pub same_key : Key → Key → Bool
same_key (a, b) (c, d) = (a == c) && (b == d)

-- The map `seen`, from a key to the index of its entry in the result.
unfoldable pub seen_at : Key → List (Key × ℕ) → Option ℕ
seen_at k [] = none
seen_at k ((j, i) ∷ seen) = if same_key j k then some i else seen_at k seen

-- `result[i] = di`
unfoldable pub set_at {ℓ} : {A : Type ℓ} → ℕ → A → List A → List A
set_at i x [] = []
set_at zero x (y ∷ ys) = x ∷ ys
set_at (suc i) x (y ∷ ys) = y ∷ set_at i x ys

pub record Scan : Type 0 where
  pub seen : List (Key × ℕ)
  pub result : List DiscoveredImage

-- `none` is an index out of range.
unfoldable pub place : DiscoveredImage → Scan → Option Scan
unfolding seen_at set_at
place di s = elim (seen_at (key_of di) s.seen) [
  | none ↦
      some (record { seen = (key_of di, length s.result) ∷ s.seen; result = s.result ++ di ∷ [] })
  | some i ↦ elim (get_elem? s.result i) [
    | none ↦ none
    | some old ↦
        some
          (if ltb_ℤ old.created di.created then record s { result = set_at i di s.result } else s)
  ]
]

unfoldable pub scan_from : Decoders → List Summary → Scan → Option Scan
unfolding discover place
scan_from d [] s = some s
scan_from d (img ∷ imgs) s = elim (discover d img) [
  | none ↦ scan_from d imgs s
  | some di ↦ elim (place di s) [ none ↦ none | some s' ↦ scan_from d imgs s' ]
]

-- ScanImages, on the list that Docker answers with.
unfoldable pub scan_images : Decoders → List Summary → Option (List DiscoveredImage)
unfolding scan_from
scan_images d imgs = elim (scan_from d imgs (record { seen = []; result = [] })) [
  | none ↦ none
  | some s ↦ some s.result
]
