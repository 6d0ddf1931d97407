-- ===== src/Protect/Token/Revoking.antt =====
-- What a revocation does to later lookups.
use selenwright.Prelude.{
  ℕ, ◌≡◌, Bool, List, [], ◌∷◌, some, Str, ◌==◌, ==_iff, err, keep, not, has_prefix, arith, inl, inr,
  Bool-cases, Option-cases, All, subst, ◌≢◌,
}
use selenwright.Protect.Token.{
  Crypto, TokenRecord, TokenStore, token_not_found, Found, rebuild_index, first_match, lookup_token,
  hash_prefix, token_plaintext_prefix, revoke, revoke_by_owner, remove_first, count_owned,
  is_expired,
}
use selenwright.Protect.Token.Index.{IsIndexed, lookup_token-eq-scan, scan}
use selenwright.Protect.Token.Steps.{revokes, revokes_owner, apply, apply-IsIndexed}

-- A fact about every record holds of the record that a lookup finds.
first_match-All :
    (P : TokenRecord → Type 0) (Q : Found → Type 0)
    → ((t : TokenRecord) → P t → Q (record { owner = t.owner; groups = t.owner_groups; id = t.id }))
    → (c : Crypto) (now : ℕ) (plaintext : Str) (ts : List TokenRecord) (f : Found) → All P ts
    → first_match c now plaintext ts ≡ some f
    → Q f
unfolding first_match
first_match-All P Q imp c now plaintext [] f a e = cc
first_match-All P Q imp c now plaintext (t ∷ ts) f a e =
    elim (Bool-cases (c.compare t.hash plaintext)) [
      | inl fits ↦ elim (Bool-cases (is_expired now t.expires_at)) [
        | inl late ↦ absurd (ground arith)
        | inr valid ↦ subst Q (ground arith) (imp t a.0)
      ]
      | inr other ↦ first_match-All P Q imp c now plaintext ts f a.1 (ground arith)
    ]

All-keep :
    (P : TokenRecord → Type 0) (q : TokenRecord → Bool) (ts : List TokenRecord)
    → All P ts
    → All P (keep q ts)
All-keep P q [] a = tt
All-keep P q (t ∷ ts) a = ground (arith, All-keep P q ts a.1)

lookup_token-All :
    (P : TokenRecord → Type 0) (Q : Found → Type 0)
    → ((t : TokenRecord) → P t → Q (record { owner = t.owner; groups = t.owner_groups; id = t.id }))
    → (c : Crypto) (now : ℕ) (plaintext : Str) (s : TokenStore) (f : Found) → IsIndexed s
    → All P s.tokens
    → lookup_token c now plaintext s ≡ some (some f)
    → Q f
unfolding scan
lookup_token-All P Q imp c now plaintext s f v a e =
    elim (Bool-cases (has_prefix plaintext token_plaintext_prefix)) [
      | inl good ↦
          first_match-All P Q imp c now plaintext
            (keep (λ t. t.hash_prefix == hash_prefix c plaintext) s.tokens) f
            (All-keep P (λ t. t.hash_prefix == hash_prefix c plaintext) s.tokens a)
            (ground (arith, lookup_token-eq-scan c now plaintext s v))
      | inr bad ↦ absurd (ground (arith, lookup_token-eq-scan c now plaintext s v))
    ]

unowned-keep :
    (owner : Str) (ts : List TokenRecord)
    → All (λ t. t.owner ≢ owner) (keep (λ t. not (t.owner == owner)) ts)
unowned-keep owner [] = tt
unowned-keep owner (t ∷ ts) = ground (arith, ==_iff t.owner owner, unowned-keep owner ts)

unowned_of_none :
    (owner : Str) (ts : List TokenRecord) → count_owned owner ts ≡ 0 → All (λ t. t.owner ≢ owner) ts
unfolding count_owned
unowned_of_none owner [] e = tt
unowned_of_none owner (t ∷ ts) e = ground (arith, ==_iff t.owner owner, unowned_of_none owner ts)

revoke_by_owner-unowned :
    (written : Bool) (owner : Str) (s : TokenStore)
    → All (λ t. t.owner ≢ owner) (revoke_by_owner written owner s).0.tokens
unfolding revoke_by_owner rebuild_index
revoke_by_owner-unowned written owner s =
    ground (arith, unowned_of_none owner s.tokens, unowned-keep owner s.tokens)

-- After RevokeByOwner, whether or not the write succeeds, no plaintext is accepted as a token of
-- that owner.
pub lookup_token-revoke_by_owner :
    (c : Crypto) (now : ℕ) (plaintext : Str) (written : Bool) (owner : Str) (s : TokenStore)
    (f : Found)
    → IsIndexed s
    → lookup_token c now plaintext (revoke_by_owner written owner s).0 ≡ some (some f)
    → f.owner ≢ owner
lookup_token-revoke_by_owner c now plaintext written owner s f v e =
    lookup_token-All (λ t. t.owner ≢ owner) (λ f. f.owner ≢ owner) (λ t h. h) c now plaintext
      (revoke_by_owner written owner s).0 f
      (unfold apply in (apply-IsIndexed c s (revokes_owner written owner) v))
      (revoke_by_owner-unowned written owner s) e

-- The ids of the records differ.
abbrev pub IdsNodup : List TokenRecord → Type 0
IdsNodup [] = Unit
IdsNodup (t ∷ ts) = All (λ u. u.id ≢ t.id) ts × IdsNodup ts

remove_first-gone :
    (id : Str) (ts us : List TokenRecord)
    → IdsNodup ts
    → remove_first id ts ≡ some us
    → All (λ t. t.id ≢ id) us
unfolding remove_first
remove_first-gone id [] us n e = cc
remove_first-gone id (t ∷ ts) us n e = elim (Bool-cases (t.id == id)) [
  | inl same ↦
      let h : ts ≡ us = ground arith in
      let k : t.id ≡ id = (==_iff _ _).0 same in
      subst (All (λ u. u.id ≢ id)) h (subst (λ i. All (λ u. u.id ≢ i) ts) k n.0)
  | inr other ↦ elim (Option-cases (remove_first id ts)) [
    | inl none_left ↦ absurd (ground arith)
    | inr (rest, found) ↦
        let h : t ∷ rest ≡ us = ground arith in
        subst (All (λ u. u.id ≢ id)) h
          ((λ k. cc (other, (==_iff _ _).1 k)), remove_first-gone id ts rest n.1 found)
  ]
]

revoke-gone :
    (written : Bool) (id : Str) (s : TokenStore)
    → IdsNodup s.tokens
    → (revoke written id s).1 ≢ err token_not_found
    → All (λ t. t.id ≢ id) (revoke written id s).0.tokens
unfolding revoke rebuild_index
revoke-gone written id s n known = elim (Option-cases (remove_first id s.tokens)) [
  | inl missing ↦ absurd (known (ground arith))
  | inr (us, found) ↦ ground (arith, remove_first-gone id s.tokens us n found)
]

-- After Revoke of an id that some record has, whether or not the write succeeds, no plaintext is
-- accepted as the token of that id. The ids of the records are assumed to differ.
lookup_token-revoke :
    (c : Crypto) (now : ℕ) (plaintext : Str) (written : Bool) (id : Str) (s : TokenStore)
    (f : Found)
    → IsIndexed s
    → IdsNodup s.tokens
    → (revoke written id s).1 ≢ err token_not_found
    → lookup_token c now plaintext (revoke written id s).0 ≡ some (some f)
    → f.id ≢ id
lookup_token-revoke c now plaintext written id s f v n known e =
    lookup_token-All (λ t. t.id ≢ id) (λ f. f.id ≢ id) (λ t h. h) c now plaintext
      (revoke written id s).0 f (unfold apply in (apply-IsIndexed c s (revokes written id) v))
      (revoke-gone written id s n known) e
