-- ===== src/Handlers/Admin/Managing.antt =====
-- Who may manage tokens, and what issuing and revoking through the endpoints does.
use selenwright.Prelude.{
  ℕ, ◌≡◌, Bool, true, false, List, some, Str, trim_space, is_empty, ◌||◌, ok, arith, All,
  Bool-cases, Result-cases, inl, inr, ap, ◌∙◌,
}
use selenwright.Protect.Token.{TokenStore, TokenMeta, create, lookup_token}
use selenwright.Protect.Token.Issuing.{lookup_token-create}
use selenwright.Handlers.Admin.{
  Issuer, AdminCall, forbidden, created, is_known, create_token_handler, tokens_handler,
  token_by_id_handler,
}

-- Where requireAdmin refuses a caller, neither endpoint changes the tokens, and both answer 403.
tokens_need_admin :
    (env : Issuer) (sort : List TokenMeta → List TokenMeta) (written : Bool) (call : AdminCall)
    (s : TokenStore)
    → call.admits ≡ false
    → (tokens_handler env sort call (some s) ≡ (some s, forbidden))
      × (token_by_id_handler written call (some s) ≡ (some s, forbidden))
unfolding tokens_handler token_by_id_handler
tokens_need_admin env sort written call s h = (ground (arith, h), ground (arith, h))

created-made :
    (env : Issuer) (raw_owner raw_name id plaintext : Str) (s : TokenStore)
    → (create_token_handler env (some (raw_owner, raw_name)) s).1 ≡ created id plaintext
    → let owner = trim_space raw_owner in
      let (s', made) =
        create env.crypto env.now env.random env.hash_of env.id_random env.written owner
          (trim_space raw_name)
          (env.groups_for owner)
          s in
      (is_known env.users owner ≡ true)
      × (made ≡ ok (id, plaintext))
      × ((create_token_handler env (some (raw_owner, raw_name)) s).0 ≡ s')
unfolding create_token_handler
created-made env raw_owner raw_name id plaintext s e =
    let owner = trim_space raw_owner in
    let name = trim_space raw_name in
    let r =
      create env.crypto env.now env.random env.hash_of env.id_random env.written owner name
        (env.groups_for owner) s in
    elim (Bool-cases (is_empty owner || is_empty name)) [
      | inl bad ↦ absurd (ground (arith, e, bad))
      | inr given ↦ elim (Bool-cases (is_known env.users owner)) [
        | inr stranger ↦ absurd (ground (arith, e, given, stranger))
        | inl known ↦ elim (Result-cases r.1) [
          | inl (x, failed) ↦ absurd (ground (arith, e, given, known, failed))
          | inr ((i, p), made) ↦
              (known, ground (arith, e, given, known, made), ground (arith, given, known))
        ]
      ]
    ]

-- A token that the endpoint answers with is made for a user of the password file, where there is one,
-- and authenticates that user with his groups at any later time. bcrypt is assumed to accept a password
-- against a hash that it made of it, and no earlier record's hash to fit the new plaintext.
pub create_token_handler-issued :
    (env : Issuer) (later : ℕ) (raw_owner raw_name id plaintext : Str) (s : TokenStore)
    → ((p h : Str) → env.hash_of p ≡ some h → env.crypto.compare h p ≡ true)
    → (create_token_handler env (some (raw_owner, raw_name)) s).1 ≡ created id plaintext
    → All (λ t. env.crypto.compare t.hash plaintext ≡ false) s.tokens
    → let owner = trim_space raw_owner in
      (is_known env.users owner ≡ true)
      × (lookup_token env.crypto later plaintext
            (create_token_handler env (some (raw_owner, raw_name)) s).0
          ≡ some
              (some (record { owner = trim_space owner; groups = env.groups_for owner; id = id })))
create_token_handler-issued env later raw_owner raw_name id plaintext s bcrypt e fresh =
    let owner = trim_space raw_owner in
    let (known, made, stored) = created-made env raw_owner raw_name id plaintext s e in
    (
      known,
      ap (lookup_token env.crypto later plaintext) stored
          ∙ lookup_token-create env.crypto env.now later env.random env.hash_of env.id_random
              env.written owner (trim_space raw_name) (env.groups_for owner) s id plaintext bcrypt
              made fresh,
    )
