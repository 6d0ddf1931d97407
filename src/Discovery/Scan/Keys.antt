-- ===== src/Discovery/Scan/Keys.antt =====
-- The entries of a scan by their keys.
use selenwright.Prelude.{
  ℕ, zero, suc, ◌≡◌, refl, true, false, List, [], ◌∷◌, ◌++◌, Option, none, some, length, get_elem?,
  if◌then◌else◌, arith, Option-cases, Bool-cases, inl, inr, ==_iff, ==_refl, subst, sym, ◌∙◌,
}
use selenwright.Discovery.Scan.{DiscoveredImage, Key, key_of, same_key, set_at}

-- The entry of a key.
unfoldable pub find_key : Key → List DiscoveredImage → Option DiscoveredImage
find_key k [] = none
find_key k (d ∷ ds) = if same_key (key_of d) k then some d else find_key k ds

-- The index of its first entry.
unfoldable pub index_of : Key → List DiscoveredImage → Option ℕ
index_of k [] = none
index_of k (d ∷ ds) =
    if same_key (key_of d) k
    then some 0
    else (elim (index_of k ds) [ none ↦ none | some i ↦ some (suc i) ])

-- No two entries have the same key.
abbrev pub KeysDistinct : List DiscoveredImage → Type 0
KeysDistinct [] = Unit
KeysDistinct (d ∷ ds) = (find_key (key_of d) ds ≡ none) × KeysDistinct ds

pub same_key_trans : (a b c : Key) → same_key a b ≡ true → same_key a c ≡ same_key b c
same_key_trans a b c h = ground (arith, ==_iff a.0 b.0, ==_iff a.1 b.1)

pub same_key-sym : (a b : Key) → same_key a b ≡ true → same_key b a ≡ true
same_key-sym a b h = ground (arith, ==_iff a.0 b.0, ==_iff a.1 b.1, ==_iff b.0 a.0, ==_iff b.1 a.1)

pub same_key-apart :
    (a b c : Key) → same_key a b ≡ false → same_key a c ≡ true → same_key b c ≡ false
same_key-apart a b c h e = elim (Bool-cases (same_key b c)) [
  | inr apart ↦ apart
  | inl together ↦
      let back = same_key_trans b c a together in
      let to : same_key a b ≡ true = same_key-sym b a (ground (arith, back, same_key-sym a c e)) in
      absurd (ground (arith, to, h))
]

pub same_key-eq : (a b : Key) → same_key a b ≡ true → a ≡ b
same_key-eq (a, b) (c, d) h = ground (arith, ==_iff a c, ==_iff b d)

pub find_key-append :
    (k : Key) (ds : List DiscoveredImage) (d : DiscoveredImage)
    → find_key k (ds ++ d ∷ []) ≡ (elim (find_key k ds) [
      | none ↦ if same_key (key_of d) k then some d else none
      | some e ↦ some e
    ])
unfolding find_key
find_key-append k [] d = ground arith
find_key-append k (e ∷ ds) d = ground (arith, find_key-append k ds d)

pub index_of-append :
    (k : Key) (ds : List DiscoveredImage) (d : DiscoveredImage)
    → index_of k (ds ++ d ∷ []) ≡ (elim (index_of k ds) [
      | none ↦ if same_key (key_of d) k then some (length ds) else none
      | some i ↦ some i
    ])
unfolding index_of
index_of-append k [] d = ground arith
index_of-append k (e ∷ ds) d = ground (arith, index_of-append k ds d)

pub index_of-none :
    (k : Key) (ds : List DiscoveredImage) → index_of k ds ≡ none → find_key k ds ≡ none
unfolding index_of find_key
index_of-none k [] h = refl
index_of-none k (e ∷ ds) h = ground (arith, index_of-none k ds)

pub index_of-some :
    (k : Key) (ds : List DiscoveredImage) (i : ℕ)
    → index_of k ds ≡ some i
    → (e : DiscoveredImage) × (get_elem? ds i ≡ some e) × (find_key k ds ≡ some e)
unfolding index_of find_key
index_of-some k [] i h = cc
index_of-some k (e ∷ ds) i h = elim (Bool-cases (same_key (key_of e) k)) [
  | inl here ↦
      let at : zero ≡ i = ground (arith, h, here) in
      (e, subst (λ j. get_elem? (e ∷ ds) j ≡ some e) at refl, ground (arith, here))
  | inr there ↦ elim (Option-cases (index_of k ds)) [
    | inl missing ↦ absurd (ground (arith, h, there, missing))
    | inr (j, later) ↦
        let at : suc j ≡ i = ground (arith, h, there, later) in
        let (f, got, found) = index_of-some k ds j later in
        (f, subst (λ n. get_elem? (e ∷ ds) n ≡ some f) at got, ground (arith, there, found))
  ]
]

-- A new entry under the key of the one that it replaces.
pub set_at-key :
    (k j : Key) (ds : List DiscoveredImage) (i : ℕ) (d : DiscoveredImage)
    → index_of k ds ≡ some i
    → same_key (key_of d) k ≡ true
    → (index_of j (set_at i d ds) ≡ index_of j ds)
      × (find_key j (set_at i d ds) ≡ (if same_key k j then some d else find_key j ds))
unfolding index_of find_key set_at
set_at-key k j [] i d h e = cc
set_at-key k j (f ∷ ds) i d h e = elim (Bool-cases (same_key (key_of f) k)) [
  | inl here ↦
      let at : zero ≡ i = ground (arith, h, here) in
      subst
        (λ n.
          (index_of j (set_at n d (f ∷ ds)) ≡ index_of j (f ∷ ds))
          × (find_key j (set_at n d (f ∷ ds))
              ≡ (if same_key k j then some d else find_key j (f ∷ ds))))
        at
        (
          ground (arith, same_key_trans (key_of f) k j here, same_key_trans (key_of d) k j e),
          ground (arith, same_key_trans (key_of f) k j here, same_key_trans (key_of d) k j e),
        )
  | inr there ↦ elim (Option-cases (index_of k ds)) [
    | inl missing ↦ absurd (ground (arith, h, there, missing))
    | inr (n, later) ↦
        let at : suc n ≡ i = ground (arith, h, there, later) in
        let (same_index, found) = set_at-key k j ds n d later e in
        subst
          (λ m.
            (index_of j (set_at m d (f ∷ ds)) ≡ index_of j (f ∷ ds))
            × (find_key j (set_at m d (f ∷ ds))
                ≡ (if same_key k j then some d else find_key j (f ∷ ds))))
          at
          (ground (arith, same_index), ground (arith, found, same_key-apart (key_of f) k j there))
  ]
]

pub KeysDistinct-append :
    (ds : List DiscoveredImage) (d : DiscoveredImage)
    → find_key (key_of d) ds ≡ none
    → KeysDistinct ds
    → KeysDistinct (ds ++ d ∷ [])
unfolding find_key
KeysDistinct-append [] d h k = (refl, tt)
KeysDistinct-append (e ∷ ds) d h (k, ks) = (
  ground (
    arith,
    find_key-append (key_of e) ds d,
    k,
    same_key-sym (key_of d) (key_of e),
    same_key-sym (key_of e) (key_of d),
  ),
  KeysDistinct-append ds d (ground (arith, h)) ks,
)

pub set_at-KeysDistinct :
    (k : Key) (ds : List DiscoveredImage) (i : ℕ) (d : DiscoveredImage)
    → index_of k ds ≡ some i
    → same_key (key_of d) k ≡ true
    → KeysDistinct ds
    → KeysDistinct (set_at i d ds)
unfolding index_of set_at find_key
set_at-KeysDistinct k [] i d h e ks = tt
set_at-KeysDistinct k (f ∷ ds) i d h e (first, ks) = elim (Bool-cases (same_key (key_of f) k)) [
  | inl here ↦
      let at : zero ≡ i = ground (arith, h, here) in
      subst (λ n. KeysDistinct (set_at n d (f ∷ ds))) at
        (
          subst (λ j. find_key j ds ≡ none)
              (same_key-eq (key_of f) k here ∙ sym (same_key-eq (key_of d) k e)) first,
          ks,
        )
  | inr there ↦ elim (Option-cases (index_of k ds)) [
    | inl missing ↦ absurd (ground (arith, h, there, missing))
    | inr (n, later) ↦
        let at : suc n ≡ i = ground (arith, h, there, later) in
        let (same_index, found) = set_at-key k (key_of f) ds n d later e in
        subst (λ m. KeysDistinct (set_at m d (f ∷ ds))) at
          (
            ground (arith, found, first, there, same_key-sym k (key_of f)),
            set_at-KeysDistinct k ds n d later e ks,
          )
  ]
]

pub same_key_refl : (k : Key) → same_key k k ≡ true
same_key_refl (a, b) = ground (arith, ==_refl a, ==_refl b)
