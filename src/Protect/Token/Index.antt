-- ===== src/Protect/Token/Index.antt =====
-- The index by hash prefix, and the lookup through it.
use selenwright.Prelude.{
  ℕ, suc, ◌≡◌, refl, sym, List, [], ◌∷◌, ◌++◌, Option, none, some, Str, StrMap, ◌==◌, ==_iff,
  lookup, insert, lookup-insert, get_elem?, length, length-append, if◌then◌else◌, keep, has_prefix,
  arith, inl, inr, Bool-cases,
}
use mathlib.Core.List.{append-nil, append_assoc}
use selenwright.Protect.Token.{
  Crypto, TokenRecord, TokenStore, Found, positions_of, index_from, gather, first_match,
  lookup_token, hash_prefix, token_plaintext_prefix,
}

-- The index is the one that rebuildIndexLocked makes of the records.
abbrev pub IsIndexed : TokenStore → Type 0
IsIndexed s = s.by_prefix ≡ index_from 0 [] s.tokens

-- The positions, counted from `i`, of the records with a prefix.
positions : Str → ℕ → List TokenRecord → List ℕ
positions k i [] = []
positions k i (t ∷ ts) =
    if t.hash_prefix == k then i ∷ positions k (suc i) ts else positions k (suc i) ts

index_from-positions :
    (k : Str) (i : ℕ) (idx : StrMap (List ℕ)) (ts : List TokenRecord)
    → positions_of (lookup k (index_from i idx ts))
      ≡ positions_of (lookup k idx) ++ positions k i ts
unfolding index_from positions
index_from-positions k i idx [] = sym (append-nil _)
index_from-positions k i idx (t ∷ ts) =
    let idx' = insert t.hash_prefix (positions_of (lookup t.hash_prefix idx) ++ i ∷ []) idx in
    let ih = index_from-positions k (suc i) idx' ts in
    let found =
      lookup-insert t.hash_prefix k (positions_of (lookup t.hash_prefix idx) ++ i ∷ []) idx in
    elim (Bool-cases (t.hash_prefix == k)) [
      | inl same ↦
          let e : t.hash_prefix ≡ k = (==_iff _ _).0 same in
          ground (
            arith,
            ih,
            found,
            same,
            e,
            append_assoc (positions_of (lookup k idx)) (i ∷ []) (positions k (suc i) ts),
          )
      | inr other ↦ ground (arith, ih, found, other)
    ]

get_elem?-append :
    (pre ts : List TokenRecord) (t : TokenRecord) → get_elem? (pre ++ t ∷ ts) (length pre) ≡ some t
get_elem?-append [] ts t = refl
get_elem?-append (p ∷ pre) ts t = get_elem?-append pre ts t

gather-positions :
    (k : Str) (i : ℕ) (pre ts : List TokenRecord)
    → i ≡ length pre
    → gather (pre ++ ts) (positions k i ts) ≡ some (keep (λ t. t.hash_prefix == k) ts)
unfolding gather positions
gather-positions k i pre [] e = refl
gather-positions k i pre (t ∷ ts) e =
    let ih : gather (pre ++ t ∷ ts) (positions k (suc i) ts)
        ≡ some (keep (λ t. t.hash_prefix == k) ts) =
      rw (append_assoc pre (t ∷ []) ts) at (
        gather-positions k (suc i) (pre ++ t ∷ []) ts
          (omega (arith, e, length-append pre (t ∷ [])))) in
    ground (arith, ih, get_elem?-append pre ts t, e)

-- What a lookup is to find, with no index: the first record, oldest first, that has the prefix
-- of the plaintext's hash and whose own hash fits.
unfoldable pub scan : Crypto → ℕ → Str → List TokenRecord → Option Found
scan c now plaintext ts =
    if has_prefix plaintext token_plaintext_prefix
    then first_match c now plaintext (keep (λ t. t.hash_prefix == hash_prefix c plaintext) ts)
    else none

-- A lookup through the index never reads out of range, and finds what a scan of all records finds.
pub lookup_token-eq-scan :
    (c : Crypto) (now : ℕ) (plaintext : Str) (s : TokenStore)
    → IsIndexed s
    → lookup_token c now plaintext s ≡ some (scan c now plaintext s.tokens)
unfolding lookup_token scan positions lookup
lookup_token-eq-scan c now plaintext s v =
    let k = hash_prefix c plaintext in
    let p : positions_of (lookup k s.by_prefix) ≡ positions k 0 s.tokens =
      rw v (index_from-positions k 0 [] s.tokens) in
    let g = gather-positions k 0 [] s.tokens refl in ground (arith, p, g)
