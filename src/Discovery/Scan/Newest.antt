-- ===== src/Discovery/Scan/Newest.antt =====
-- For each browser and version the scan keeps the image that was made last.
use selenwright.Prelude.{
  ◌≡◌, refl, true, List, [], ◌∷◌, ◌++◌, Option, none, some, length, ltb_ℤ, if◌then◌else◌, arith,
  Option-cases, Bool-cases, inl, inr, subst, sym, ◌∙◌, ap,
}
use selenwright.Discovery.Labels.{Decoders}
use selenwright.Discovery.Scan.{
  Summary, DiscoveredImage, discover, Key, key_of, same_key, seen_at, set_at, Scan, place,
  scan_from, scan_images,
}
use selenwright.Discovery.Scan.Keys.{
  find_key, index_of, KeysDistinct, same_key-eq, find_key-append, index_of-append, index_of-none,
  index_of-some, set_at-key, KeysDistinct-append, set_at-KeysDistinct, same_key_refl,
}

-- What is left of an old entry and a new one: the new one only where it was made later.
abbrev pub newer : Option DiscoveredImage → DiscoveredImage → DiscoveredImage
newer none d = d
newer (some old) d = if ltb_ℤ old.created d.created then d else old

-- The image of a key that was made last, the first of these, among the images that qualify.
unfoldable pub newest :
    Decoders → Key → Option DiscoveredImage → List Summary → Option DiscoveredImage
newest d k best [] = best
newest d k best (img ∷ imgs) = elim (discover d img) [
  | none ↦ newest d k best imgs
  | some di ↦ newest d k (if same_key (key_of di) k then some (newer best di) else best) imgs
]

alike :
    (k j : Key) (ds : List DiscoveredImage)
    → same_key j k ≡ true
    → (find_key k ds ≡ find_key j ds) × (index_of k ds ≡ index_of j ds)
alike k j ds h =
    subst (λ i. (find_key i ds ≡ find_key j ds) × (index_of i ds ≡ index_of j ds))
      (same_key-eq j k h) (refl, refl)

-- The map of the scan finds the index of the entry.
abbrev IsIndexed : Scan → Type 0
IsIndexed s = (k : Key) → seen_at k s.seen ≡ index_of k s.result

abbrev Placed : DiscoveredImage → Scan → Scan → Type 0
Placed di s s' =
    (k : Key)
    → find_key k s'.result ≡ (
        if same_key (key_of di) k
        then some (newer (find_key k s.result) di)
        else find_key k s.result)

place_total :
    (di : DiscoveredImage) (s : Scan)
    → IsIndexed s
    → KeysDistinct s.result
    → (s' : Scan) × (place di s ≡ some s') × IsIndexed s' × KeysDistinct s'.result × Placed di s s'
unfolding place seen_at
place_total di s indexed distinct = elim (Option-cases (index_of (key_of di) s.result)) [
  | inl new ↦
      let absent = index_of-none (key_of di) s.result new in
      (
        record { seen = (key_of di, length s.result) ∷ s.seen; result = s.result ++ di ∷ [] },
        ground (arith, indexed (key_of di), new),
        (λ k.
            ground
              (arith, indexed k, new, index_of-append k s.result di, alike k (key_of di) s.result)),
        KeysDistinct-append s.result di absent distinct,
        (λ k. ground (arith, absent, alike k (key_of di) s.result, find_key-append k s.result di)),
      )
  | inr (i, dup) ↦
      let (old, got, found) = index_of-some (key_of di) s.result i dup in
      elim (Bool-cases (ltb_ℤ old.created di.created)) [
        | inl later ↦ (
          record s { result = set_at i di s.result },
          ground (arith, indexed (key_of di), dup, got, later),
          (λ k. ground (
            arith,
            indexed k,
            set_at-key (key_of di) k s.result i di dup (same_key_refl (key_of di)),
          )),
          set_at-KeysDistinct (key_of di) s.result i di dup (same_key_refl (key_of di)) distinct,
          (λ k. ground (
            arith,
            found,
            later,
            alike k (key_of di) s.result,
            set_at-key (key_of di) k s.result i di dup (same_key_refl (key_of di)),
          )),
        )
        | inr earlier ↦ (
          s,
          ground (arith, indexed (key_of di), dup, got, earlier),
          indexed,
          distinct,
          (λ k. ground (arith, found, earlier, alike k (key_of di) s.result)),
        )
      ]
]

newest-found :
    (d : Decoders) (k : Key) (best : Option DiscoveredImage) (img : Summary) (imgs : List Summary)
    (di : DiscoveredImage)
    → discover d img ≡ some di
    → newest d k best (img ∷ imgs)
      ≡ newest d k (if same_key (key_of di) k then some (newer best di) else best) imgs
unfolding newest
newest-found d k best img imgs di h =
    ap
      (λ o. elim o [
        | none ↦ newest d k best imgs
        | some x ↦ newest d k (if same_key (key_of x) k then some (newer best x) else best) imgs
      ])
      h

scan_from_total :
    (d : Decoders) (imgs : List Summary) (s : Scan)
    → IsIndexed s
    → KeysDistinct s.result
    → (s' : Scan) × (scan_from d imgs s ≡ some s')
      × KeysDistinct s'.result
      × ((k : Key) → find_key k s'.result ≡ newest d k (find_key k s.result) imgs)
unfolding scan_from newest
scan_from_total d [] s indexed distinct = (s, refl, distinct, (λ k. refl))
scan_from_total d (img ∷ imgs) s indexed distinct = elim (Option-cases (discover d img)) [
  | inl skipped ↦
      let (s', e, distinct', kept) = scan_from_total d imgs s indexed distinct in
      (s', ground (arith, skipped, e), distinct', (λ k. ground (arith, skipped, kept k)))
  | inr (di, there) ↦
      let (mid, placed, indexed', mid_distinct, put) = place_total di s indexed distinct in
      let (s', e, distinct', kept) = scan_from_total d imgs mid indexed' mid_distinct in
      (
        s',
        ground (arith, there, placed, e),
        distinct',
        (λ k.
            kept k
            ∙ ap (λ b. newest d k b imgs) (put k)
            ∙ sym (newest-found d k (find_key k s.result) img imgs di there)),
      )
]

-- ScanImages never reads out of range, lists each browser and version at most once, and lists for it
-- the qualifying image that was made last, the first of these in Docker's answer; where no image
-- qualifies it lists none.
pub scan_images-newest :
    (d : Decoders) (imgs : List Summary)
    → (found : List DiscoveredImage) × (scan_images d imgs ≡ some found)
      × KeysDistinct found
      × ((k : Key) → find_key k found ≡ newest d k none imgs)
unfolding scan_images find_key seen_at index_of
scan_images-newest d imgs =
    let (s, e, distinct, kept) =
      scan_from_total d imgs (record { seen = []; result = [] }) (λ k. refl) tt in
    (s.result, ground (arith, e), distinct, kept)
