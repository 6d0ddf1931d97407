-- ===== src/Discovery/Handling/Deciding.antt =====
-- Who may decide on an image, and what a decision does to the catalog.
use selenwright.Prelude.{
  ◌≡◌, refl, true, false, List, [], ◌∷◌, none, some, Str, lookup, any, lookup-insert, lookup-delete,
  ◌==◌, ==_iff, ==_refl, if◌then◌else◌, arith, Bool-cases, inl, inr, is_empty, ◌||◌, subst, sym,
  ◌∙◌, StrMap,
}
use selenwright.Config.{Versions}
use selenwright.Discovery.Scan.{Summary, DiscoveredImage, scan_images, first_or}
use selenwright.Discovery.Adopted.{
  Entry, AdoptedStore, adopt, is_adopted, is_dismissed, save_locked,
}
use selenwright.Discovery.Catalog.{assemble_catalog, build_browsers_from_adopted, filter_unadopted}
use selenwright.Discovery.Catalog.Offers.{offers, provides, build_browsers_from_adopted-offers}
use selenwright.Discovery.Handling.{
  Catalogs, Call, Surroundings, adopted, forbidden, method_not_allowed, require_admin, find_digest,
  rebuild, decide, checked_decide, adopt_browser, dismiss_browser, rescan_browsers,
}

-- With authentication on, a caller who is no admin changes neither the store nor the catalog by
-- adopting, dismissing or rescanning, and gets 403, or 405 for the wrong method.
decisions_need_admin :
    (env : Surroundings) (call : Call) (c : Catalogs)
    → require_admin call ≡ false
    → let refusal = if call.method_fits then forbidden else method_not_allowed in
      (adopt_browser env call c ≡ some (c, refusal))
      × (dismiss_browser env call c ≡ some (c, refusal))
      × (rescan_browsers env call c ≡ some (c, refusal))
unfolding adopt_browser dismiss_browser rescan_browsers checked_decide
decisions_need_admin env call c h = elim (Bool-cases call.method_fits) [
  | inl fits ↦ ground (arith, fits, h)
  | inr other ↦ ground (arith, other)
]

find_digest-digest :
    (digest : Str) (ds : List DiscoveredImage) (t : DiscoveredImage)
    → find_digest digest ds ≡ some t
    → t.digest ≡ digest
unfolding find_digest
find_digest-digest digest [] t h = cc
find_digest-digest digest (d ∷ ds) t h = elim (Bool-cases (d.digest == digest)) [
  | inl here ↦
      let same : d ≡ t = ground (arith, h, here) in
      subst (λ x. x.digest ≡ digest) same (ground (arith, here, ==_iff d.digest digest))
  | inr there ↦ find_digest-digest digest ds t (ground (arith, h, there))
]

find_digest-provides :
    (digest : Str) (ds : List DiscoveredImage) (t : DiscoveredImage) (store : AdoptedStore)
    → find_digest digest ds ≡ some t
    → is_adopted digest store ≡ true
    → any (provides store t.name t.version) ds ≡ true
unfolding find_digest
find_digest-provides digest [] t store h a = cc
find_digest-provides digest (d ∷ ds) t store h a = elim (Bool-cases (d.digest == digest)) [
  | inr there ↦ ground (arith, find_digest-provides digest ds t store (ground (arith, h, there)) a)
  | inl here ↦
      let same : d ≡ t = ground (arith, h, here) in
      let digests : d.digest ≡ digest = ground (arith, here, ==_iff d.digest digest) in
      subst (λ x. any (provides store x.name x.version) (d ∷ ds) ≡ true) same
        (subst
          (λ g. is_adopted g store ≡ true → any (provides store d.name d.version) (d ∷ ds) ≡ true)
          digests (λ k. ground (arith, k, ==_refl d.name, ==_refl d.version)) a)
]

filter-decided :
    (digest : Str) (ds : List DiscoveredImage) (store : AdoptedStore)
    → (is_adopted digest store || is_dismissed digest store) ≡ true
    → find_digest digest (filter_unadopted ds store) ≡ none
unfolding find_digest filter_unadopted
filter-decided digest [] store h = refl
filter-decided digest (d ∷ ds) store h = elim (Bool-cases (d.digest == digest)) [
  | inr there ↦ ground (arith, there, filter-decided digest ds store h)
  | inl here ↦
      let digests : digest ≡ d.digest = sym (ground (arith, here, ==_iff d.digest digest)) in
      let decided : (is_adopted d.digest store || is_dismissed d.digest store) ≡ true =
        subst (λ g. (is_adopted g store || is_dismissed g store) ≡ true) digests h in
      ground (arith, decided, filter-decided digest ds store h)
]

offers-empty :
    (name version : Str) (m : StrMap Versions) → is_empty m ≡ true → offers name version m ≡ false
unfolding lookup
offers-empty name version [] h = refl
offers-empty name version (e ∷ m) h = cc

assemble_catalog-offers :
    (env : Surroundings) (store : AdoptedStore) (ds : List DiscoveredImage)
    (browsers : StrMap Versions) (name version : Str)
    → any (provides store name version) ds ≡ true
    → offers name version (assemble_catalog env.sorting store env.fallback ds browsers).0 ≡ true
unfolding assemble_catalog lookup
assemble_catalog-offers env store ds browsers name version h =
    let built = build_browsers_from_adopted env.sorting ds store in
    let offered : offers name version built ≡ true =
      build_browsers_from_adopted-offers env.sorting ds store name version ∙ h in
    elim (Bool-cases (is_empty built)) [
      | inr full ↦ rw full offered
      | inl bare ↦ absurd (ground (arith, offered, offers-empty name version built bare))
    ]

-- An image that Docker has and an admin adopts, where the write of the store succeeds and Docker
-- answers the same twice: the answer is `adopted`, without a panic, the digest is adopted and no longer
-- dismissed or on offer, and the catalog has the image's browser and version from then on.
adopt_browser-offers :
    (env : Surroundings) (call : Call) (c : Catalogs) (digest : Str) (imgs : List Summary)
    (discovered : List DiscoveredImage) (target : DiscoveredImage)
    → call.method_fits ≡ true
    → require_admin call ≡ true
    → call.available ≡ true
    → call.digest ≡ some digest
    → is_empty digest ≡ false
    → env.first_scan ≡ some imgs
    → env.second_scan ≡ some imgs
    → env.saves ≡ true
    → scan_images env.decoders imgs ≡ some discovered
    → find_digest digest discovered ≡ some target
    → (c' : Catalogs) × (adopt_browser env call c ≡ some (c', adopted))
      × (is_adopted digest c'.store ≡ true)
      × (is_dismissed digest c'.store ≡ false)
      × (find_digest digest (filter_unadopted discovered c'.store) ≡ none)
      × (offers target.name target.version c'.browsers ≡ true)
unfolding adopt_browser checked_decide decide rebuild adopt save_locked
adopt_browser-offers env call c digest imgs discovered target fits admin there given nonempty first
      second writes scanned found =
    let entry : Entry = record {
      at = env.now;
      browser = target.name;
      version = target.version;
      repo_tag = first_or digest target.repo_tags;
    } in
    let store = (adopt true digest entry c.store).0 in
    let is_in : is_adopted digest store ≡ true =
      ground (arith, lookup-insert digest digest entry c.store.data_of.adopted, ==_refl digest) in
    let is_out : is_dismissed digest store ≡ false =
      ground (arith, lookup-delete digest digest c.store.data_of.dismissed, ==_refl digest) in
    let browsers = (assemble_catalog env.sorting store env.fallback discovered c.browsers).0 in
    (
      record { store = store; browsers = browsers },
      ground (arith, fits, admin, there, given, nonempty, first, scanned, found, writes, second),
      is_in,
      is_out,
      filter-decided digest discovered store (ground (arith, is_in)),
      assemble_catalog-offers env store discovered c.browsers target.name target.version
          (find_digest-provides digest discovered target store found is_in),
    )
