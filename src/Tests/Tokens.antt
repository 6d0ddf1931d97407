-- ===== src/Tests/Tokens.antt =====
-- Runs of the token store.
use selenwright.Prelude.{
  ◌≡◌, ◌≢◌, refl, true, [], ◌∷◌, none, some, Str, lit, ==_refl, trim_space, ◌==◌, has_prefix,
  lookup, insert, arith, elem,
}
use selenwright.Tests.{plain_crypto}
use selenwright.Protect.Token.{
  TokenRecord, TokenStore, Found, lookup_token, create, revoke_by_owner, hash_prefix, index_from,
}
use selenwright.Protect.Token.Index.{IsIndexed, scan, lookup_token-eq-scan}
use selenwright.Protect.Token.Steps.{touches, apply, apply-IsIndexed}
use selenwright.Protect.Token.Revoking.{lookup_token-revoke_by_owner}
use selenwright.Handlers.Admin.{Issuer, created, create_token_handler}
use selenwright.Handlers.Admin.Managing.{create_token_handler-issued}

abbrev token_of : Str → Str → Str → TokenRecord
token_of id owner hash = record {
  id = id;
  hash_prefix = lit "swr_";
  hash = hash;
  owner = owner;
  owner_groups = [];
  name = lit "ci";
  created_at = 0;
  last_used_at = none;
  expires_at = none;
}

abbrev two_tokens : TokenStore
two_tokens = record {
  tokens =
      token_of (lit "tok_1") (lit "alice") (lit "swr_live_1")
      ∷ token_of (lit "tok_2") (lit "bob") (lit "swr_live_2")
      ∷ [];
  by_prefix = (lit "swr_", 0 ∷ 1 ∷ []) ∷ [];
  pending_touch = [];
  disk = [];
}

two_tokens-IsIndexed : IsIndexed two_tokens
unfolding index_from ◌==◌ lookup insert
two_tokens-IsIndexed = refl

lookup_token-eq-scan_example :
    lookup_token plain_crypto 7 (lit "swr_live_2") two_tokens
    ≡ some (scan plain_crypto 7 (lit "swr_live_2") two_tokens.tokens)
lookup_token-eq-scan_example =
    lookup_token-eq-scan plain_crypto 7 (lit "swr_live_2") two_tokens two_tokens-IsIndexed

apply-IsIndexed_example : IsIndexed (apply plain_crypto two_tokens (touches 7 (lit "tok_1")))
apply-IsIndexed_example =
    apply-IsIndexed plain_crypto two_tokens (touches 7 (lit "tok_1")) two_tokens-IsIndexed

abbrev bob_found : Found
bob_found = record { owner = lit "bob"; groups = []; id = lit "tok_2" }

bob_stays :
    lookup_token plain_crypto 7 (lit "swr_live_2") (revoke_by_owner true (lit "alice") two_tokens).0
    ≡ some (some bob_found)
unfolding lookup_token revoke_by_owner ◌==◌ lookup insert has_prefix hash_prefix index_from
bob_stays = refl

lookup_token-revoke_by_owner_example : bob_found.owner ≢ lit "alice"
lookup_token-revoke_by_owner_example =
    lookup_token-revoke_by_owner plain_crypto 7 (lit "swr_live_2") true (lit "alice") two_tokens
      bob_found two_tokens-IsIndexed bob_stays

bcrypt_fits : (p h : Str) → some p ≡ some h → plain_crypto.compare h p ≡ true
bcrypt_fits p h e = ground (arith, ==_refl p)

abbrev issuer : Issuer
issuer = record {
  crypto = plain_crypto;
  users = some (lit "carol" ∷ []);
  groups_for = λ user. lit "qa" ∷ [];
  now = 7;
  random = some (lit "3");
  id_random = some (lit "3");
  hash_of = λ p. some p;
  written = true;
}

issued :
    (create_token_handler issuer (some (lit " carol ", lit "ci")) two_tokens).1
    ≡ created (lit "tok_3") (lit "swr_live_3")
unfolding create_token_handler create trim_space ◌==◌ elem
issued = refl

create_token_handler-issued_example :
    (elem (trim_space (lit " carol ")) (lit "carol" ∷ []) ≡ true)
    × (lookup_token plain_crypto 9
          (lit "swr_live_3")
          (create_token_handler issuer (some (lit " carol ", lit "ci")) two_tokens).0
        ≡ some (
            some (record {
              owner = trim_space (trim_space (lit " carol "));
              groups = lit "qa" ∷ [];
              id = lit "tok_3";
            })))
create_token_handler-issued_example =
    create_token_handler-issued issuer 9 (lit " carol ") (lit "ci") (lit "tok_3") (lit "swr_live_3")
      two_tokens bcrypt_fits issued (unfold ◌==◌ in (refl, (refl, tt)))
