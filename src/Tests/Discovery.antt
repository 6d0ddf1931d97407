-- ===== src/Tests/Discovery.antt =====
-- Runs of the discovery of images.
use selenwright.Prelude.{◌≡◌, refl, true, false, List, [], ◌∷◌, none, some, Str, lit, any, pos, ℤ}
use selenwright.Config.{Versions}
use selenwright.Discovery.Labels.{Decoders}
use selenwright.Discovery.Scan.{Summary, DiscoveredImage, Key, scan_images}
use selenwright.Discovery.Scan.Keys.{KeysDistinct, find_key}
use selenwright.Discovery.Scan.Newest.{newest, scan_images-newest}
use selenwright.Discovery.Adopted.{
  Entry, AdoptedStore, absent, new_adopted_store, Operation, adopts, dismisses, restarts, run,
  is_adopted, is_dismissed,
}
use selenwright.Discovery.Adopted.Refines.{
  Refines, table_run, blank, shows_adopted, shows_dismissed, run-table,
}
use selenwright.Discovery.Catalog.{Sorting, build_browsers_from_adopted}
use selenwright.Discovery.Catalog.Offers.{offers, provides, build_browsers_from_adopted-offers}
use selenwright.Tests.Catalog.{chrome}

abbrev decoders : Decoders
decoders = record {
  browser = λ s. some chrome;
  string_map = λ s. none;
  string_list = λ s. none;
  scan_int = λ s. none;
}

abbrev summary : Str → Str → ℤ → Summary
summary digest version created = record {
  id = lit "sha256:id";
  repo_digests = digest ∷ [];
  repo_tags = lit "browser:latest" ∷ [];
  labels =
      (lit "io.selenwright.browser", lit "chrome")
      ∷ (lit "io.selenwright.version", version)
      ∷ (lit "io.selenwright.config", lit "{}")
      ∷ [];
  created = created;
}

-- The second image replaces the first.
abbrev images : List Summary
images =
    summary (lit "a") (lit "120.0") (pos 5)
    ∷ summary (lit "b") (lit "120.0") (pos 7)
    ∷ summary (lit "c") (lit "121.0") (pos 6)
    ∷ []

scan_images-newest_example :
    (found : List DiscoveredImage) × (scan_images decoders images ≡ some found)
    × KeysDistinct found
    × ((k : Key) → find_key k found ≡ newest decoders k none images)
scan_images-newest_example = scan_images-newest decoders images

abbrev entry : Entry
entry = record {
  at = pos 1;
  browser = lit "chrome";
  version = lit "120.0";
  repo_tag = lit "browser:latest";
}

abbrev empty_store : AdoptedStore
empty_store = record { data_of = record { adopted = []; dismissed = [] }; file = absent }

-- The second write fails, and the restart forgets it.
abbrev operations : List Operation
operations =
    adopts true (lit "b") entry
    ∷ dismisses false (lit "b") entry
    ∷ restarts
    ∷ dismisses true (lit "c") entry
    ∷ []

run-table_example :
    Refines (run operations empty_store) (table_run operations blank)
    × ((d : Str)
        → (is_adopted d (run operations empty_store)
            ≡ shows_adopted ((table_run operations blank).now d))
          × (is_dismissed d (run operations empty_store)
              ≡ shows_dismissed ((table_run operations blank).now d)))
run-table_example = run-table operations empty_store (unfold new_adopted_store in refl)

-- A stand-in for sort.Slice that leaves the order as it is.
abbrev sorting : Sorting
sorting = record { scan_int = λ s. none; sort = λ lt ss. ss }

abbrev image_of : Str → Str → ℤ → DiscoveredImage
image_of digest version created = record {
  digest = digest;
  repo_tags = lit "browser:latest" ∷ [];
  browser = chrome;
  image = lit "browser:latest";
  name = lit "chrome";
  version = version;
  is_default = false;
  created = created;
}

abbrev discovered : List DiscoveredImage
discovered =
    image_of (lit "b") (lit "120.0") (pos 7) ∷ image_of (lit "c") (lit "121.0") (pos 6) ∷ []

abbrev store : AdoptedStore
store = record {
  data_of = record { adopted = (lit "b", entry) ∷ []; dismissed = [] };
  file = absent;
}

build_browsers_from_adopted-offers_example :
    offers (lit "chrome") (lit "120.0") (build_browsers_from_adopted sorting discovered store)
    ≡ any (provides store (lit "chrome") (lit "120.0")) discovered
build_browsers_from_adopted-offers_example =
    build_browsers_from_adopted-offers sorting discovered store (lit "chrome") (lit "120.0")

abbrev chromes : Versions
chromes = record { default = lit "120.0"; versions = (lit "120.0", some chrome) ∷ [] }
