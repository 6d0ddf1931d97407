-- ===== src/Protect/Token/Issuing.antt =====
-- A token that has been issued is found.
use selenwright.Prelude.{
  ℕ, ◌≡◌, refl, Bool, true, false, List, [], ◌∷◌, ◌++◌, Option, none, some, Str, ◌==◌, ==_iff, ok,
  keep, has_prefix, trim_space, arith, inl, inr, Option-cases, All, has_prefix_append,
}
use selenwright.Protect.Token.{
  Crypto, TokenRecord, TokenStore, add_record, first_match, lookup_token, hash_prefix,
  token_plaintext_prefix, create, new_record,
}
use selenwright.Protect.Token.Index.{lookup_token-eq-scan, scan}
use selenwright.Protect.Token.Steps.{add_record-IsIndexed}

first_match-fresh :
    (c : Crypto) (now : ℕ) (plaintext : Str) (q : TokenRecord → Bool) (ts us : List TokenRecord)
    → All (λ t. c.compare t.hash plaintext ≡ false) ts
    → first_match c now plaintext (keep q (ts ++ us)) ≡ first_match c now plaintext (keep q us)
unfolding first_match
first_match-fresh c now plaintext q [] us a = refl
first_match-fresh c now plaintext q (t ∷ ts) us a =
    ground (arith, first_match-fresh c now plaintext q ts us a.1)

add_record-tokens :
    (written : Bool) (rec : TokenRecord) (s : TokenStore)
    → (add_record written rec s).tokens ≡ s.tokens ++ rec ∷ []
unfolding add_record
add_record-tokens written rec s = ground arith

issued :
    (c : Crypto) (now later : ℕ) (plaintext : Str) (written : Bool) (rec : TokenRecord)
    (s : TokenStore)
    → has_prefix plaintext token_plaintext_prefix ≡ true
    → rec.hash_prefix ≡ hash_prefix c plaintext
    → c.compare rec.hash plaintext ≡ true
    → rec.expires_at ≡ none
    → All (λ t. c.compare t.hash plaintext ≡ false) s.tokens
    → lookup_token c later plaintext (add_record written rec s)
      ≡ some (some (record { owner = rec.owner; groups = rec.owner_groups; id = rec.id }))
unfolding scan first_match
issued c now later plaintext written rec s good prefix fits lasting fresh = ground (
  arith,
  lookup_token-eq-scan c later plaintext (add_record written rec s)
      (add_record-IsIndexed written rec s),
  add_record-tokens written rec s,
  first_match-fresh c later plaintext (λ t. t.hash_prefix == hash_prefix c plaintext) s.tokens
      (rec ∷ []) fresh,
  ==_iff rec.hash_prefix (hash_prefix c plaintext),
)

create_ok :
    (c : Crypto) (now : ℕ) (body : Option Str) (hash_of : Str → Option Str) (id_body : Option Str)
    (written : Bool) (owner name : Str) (groups : List Str) (s : TokenStore) (id plaintext : Str)
    → (create c now body hash_of id_body written owner name groups s).1 ≡ ok (id, plaintext)
    → (hash : Str) × (hash_of plaintext ≡ some hash)
      × (has_prefix plaintext token_plaintext_prefix ≡ true)
      × ((create c now body hash_of id_body written owner name groups s).0
          ≡ add_record written
              (new_record c now (trim_space owner) (trim_space name) groups plaintext hash id)
              s)
unfolding create
create_ok c now none hash_of id_body written owner name groups s id plaintext made =
    absurd (ground arith)
create_ok c now (some b) hash_of id_body written owner name groups s id plaintext made =
    elim (Option-cases (hash_of (token_plaintext_prefix ++ b))) [
      | inl failed ↦ absurd (ground arith)
      | inr (hash, e) ↦
          let p : token_plaintext_prefix ++ b ≡ plaintext = ground arith in
          (hash, rw (← p) e, rw (← p) (has_prefix_append token_plaintext_prefix b), ground arith)
    ]

-- The plaintext that Create returns is accepted at any later time, with the trimmed owner, the
-- groups and the id that Create was given. bcrypt is assumed to accept a password against the
-- hash that it made of it, and no record's hash to fit the new plaintext beforehand.
pub lookup_token-create :
    (c : Crypto) (now later : ℕ) (body : Option Str) (hash_of : Str → Option Str)
    (id_body : Option Str) (written : Bool) (owner name : Str) (groups : List Str) (s : TokenStore)
    (id plaintext : Str)
    → ((p h : Str) → hash_of p ≡ some h → c.compare h p ≡ true)
    → (create c now body hash_of id_body written owner name groups s).1 ≡ ok (id, plaintext)
    → All (λ t. c.compare t.hash plaintext ≡ false) s.tokens
    → lookup_token c later plaintext
        (create c now body hash_of id_body written owner name groups s).0
      ≡ some (some (record { owner = trim_space owner; groups = groups; id = id }))
lookup_token-create c now later body hash_of id_body written owner name groups s id plaintext bcrypt
      made fresh =
    let (hash, hashed, good, stored) =
      create_ok c now body hash_of id_body written owner name groups s id plaintext made in
    rw stored (
      issued c now later plaintext written
        (new_record c now (trim_space owner) (trim_space name) groups plaintext hash id) s good refl
        (bcrypt plaintext hash hashed) refl fresh)
