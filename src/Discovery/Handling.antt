-- ===== src/Discovery/Handling.antt =====
-- discovery_handlers.go: the endpoints by which an operator adopts and dismisses images.
pub mod Deciding
use selenwright.Prelude.{
  ℕ, Bool, true, false, List, [], ◌∷◌, Option, none, some, Str, StrMap, lit, ◌==◌, is_empty, ◌||◌,
  if◌then◌else◌, ℤ, not, Result, ok, err,
}
use selenwright.Config.{Versions}
use selenwright.Discovery.Labels.{Decoders}
use selenwright.Discovery.Scan.{Summary, DiscoveredImage, first_or, scan_images}
use selenwright.Discovery.Adopted.{Entry, AdoptedStore, StoreError, adopt, dismiss}
use selenwright.Discovery.Catalog.{
  Sorting, Fallback, AssembleError, assemble_catalog, filter_unadopted,
}

-- The store and the catalog of browsers.
pub record Catalogs : Type 0 where
  pub store : AdoptedStore
  pub browsers : StrMap Versions

-- What a request and the service's settings say: the method fits, the mode is `none`, the caller is an
-- admin, Docker and a store are there, and the digest that the body holds, none where it is malformed.
pub record Call : Type 0 where
  pub method_fits : Bool
  pub mode_none : Bool
  pub is_admin : Bool
  pub available : Bool
  pub digest : Option Str

-- What Docker, the file system and the clock do: the answers to the two lists of images, none for an
-- error, whether the store's file is written, and the JSON file to fall back to.
pub record Surroundings : Type 0 where
  pub first_scan : Option (List Summary)
  pub second_scan : Option (List Summary)
  pub saves : Bool
  pub now : ℤ
  pub fallback : Fallback
  pub decoders : Decoders
  pub sorting : Sorting

pub data Answer : Type 0 where
  method_not_allowed forbidden unavailable missing_digest scan_failed not_found : Answer
  save_failed rescan_failed adopted dismissed : Answer
  listed : List DiscoveredImage → Answer

abbrev pub require_admin : Call → Bool
require_admin c = c.mode_none || c.is_admin

unfoldable pub find_digest : Str → List DiscoveredImage → Option DiscoveredImage
find_digest digest [] = none
find_digest digest (d ∷ ds) = if d.digest == digest then some d else find_digest digest ds

-- AssembleCatalog, on what Docker answers; `none` is a panic.
unfoldable pub rebuild :
    Surroundings
    → Option (List Summary)
    → AdoptedStore
    → StrMap Versions
    → Option (StrMap Versions × Option AssembleError)
rebuild env none store browsers = some (browsers, some AssembleError.scan_failed)
rebuild env (some imgs) store browsers = elim (scan_images env.decoders imgs) [
  | none ↦ none
  | some discovered ↦ some (assemble_catalog env.sorting store env.fallback discovered browsers)
]

abbrev pub Decision : Type 0
Decision = Bool → Str → Entry → AdoptedStore → AdoptedStore × Result StoreError (Unit {0})

-- adoptBrowser and dismissBrowser behind their checks: the image is looked up, the store is changed, and
-- the catalog is built again; that this fails is only logged.
unfoldable pub decide :
    Decision → Answer → Surroundings → Str → Catalogs → Option (Catalogs × Answer)
unfolding find_digest rebuild
decide decision done env digest c = elim env.first_scan [
  | none ↦ some (c, scan_failed)
  | some imgs ↦ elim (scan_images env.decoders imgs) [
    | none ↦ none
    | some discovered ↦ elim (find_digest digest discovered) [
      | none ↦ some (c, not_found)
      | some target ↦
          let entry : Entry = record {
            at = env.now;
            browser = target.name;
            version = target.version;
            repo_tag = first_or digest target.repo_tags;
          } in
          let (store, saved) = decision env.saves digest entry c.store in
          elim saved [
            | err e ↦ some (record c { store = store }, save_failed)
            | ok u ↦ elim (rebuild env env.second_scan store c.browsers) [
              | none ↦ none
              | some (browsers, e) ↦ some (record { store = store; browsers = browsers }, done)
            ]
          ]
    ]
  ]
]

unfoldable pub checked_decide :
    Decision → Answer → Surroundings → Call → Catalogs → Option (Catalogs × Answer)
unfolding decide
checked_decide decision done env call c =
    if not call.method_fits
    then some (c, method_not_allowed)
    else if not (require_admin call)
    then some (c, forbidden)
    else if not call.available
    then some (c, unavailable)
    else (elim call.digest [
      | none ↦ some (c, missing_digest)
      | some digest ↦
          if is_empty digest then some (c, missing_digest) else decide decision done env digest c
    ])

unfoldable pub adopt_browser : Surroundings → Call → Catalogs → Option (Catalogs × Answer)
unfolding checked_decide
adopt_browser env call c = checked_decide adopt adopted env call c

unfoldable pub dismiss_browser : Surroundings → Call → Catalogs → Option (Catalogs × Answer)
unfolding checked_decide
dismiss_browser env call c = checked_decide dismiss dismissed env call c

-- The images on offer, none where Docker does not answer; the outer `none` is a panic.
unfoldable pub list_unadopted : Surroundings → Option (List Summary) → AdoptedStore → Option Answer
list_unadopted env none store = some scan_failed
list_unadopted env (some imgs) store = elim (scan_images env.decoders imgs) [
  | none ↦ none
  | some discovered ↦ some (listed (filter_unadopted discovered store))
]

unfoldable pub discovered_browsers : Surroundings → Call → Catalogs → Option Answer
unfolding list_unadopted
discovered_browsers env call c =
    if not call.method_fits
    then some method_not_allowed
    else if not call.available
    then some (listed [])
    else list_unadopted env env.first_scan c.store

unfoldable pub rescan_browsers : Surroundings → Call → Catalogs → Option (Catalogs × Answer)
unfolding rebuild list_unadopted
rescan_browsers env call c =
    if not call.method_fits
    then some (c, method_not_allowed)
    else if not (require_admin call)
    then some (c, forbidden)
    else if not call.available
    then some (c, unavailable)
    else (elim (rebuild env env.first_scan c.store c.browsers) [
      | none ↦ none
      | some (browsers, e) ↦
          let c' = record c { browsers = browsers } in
          elim e [
            | some failed ↦ some (c', rescan_failed)
            | none ↦ elim (list_unadopted env env.second_scan c.store) [
              | none ↦ none
              | some answer ↦ some (c', answer)
            ]
          ]
    ])
