-- ===== src/Protect/Auth/Tokens.antt =====
-- API tokens decide alone: a request that presents one never falls back.
use selenwright.Prelude.{
  ℕ, ◌≡◌, ◌≢◌, subst, Bool, List, Option, none, some, Str, elem, Result, ok, err, arith,
  Option-cases, inl, inr,
}
use selenwright.Protect.Access.{Identity}
use selenwright.Protect.Token.{
  Crypto, TokenStore, Found, touch_last_used, lookup_token, revoke_by_owner,
}
use selenwright.Protect.Token.Index.{IsIndexed}
use selenwright.Protect.Token.Revoking.{lookup_token-revoke_by_owner}
use selenwright.Protect.Request.{Request}
use selenwright.Protect.Htpasswd.{AuthError, auth_failed}
use selenwright.Protect.Auth.{Authenticator, Stores, token_aware, presented, authenticate}

module _ (c : Crypto) (look : TokenStore → Str → Option Found) (now : ℕ) where
  -- Whatever the wrapped authenticator would say: a presented token that the store does not know
  -- fails the request, and one that it knows gives its owner's identity, an admin's exactly if the
  -- owner is one of the admins, and is noted as used.
  authenticate-presented :
      (admins : List Str) (allowed : Option (Str → Bool)) (fallback : Authenticator) (r : Request)
      (w : Stores) (tok : Str)
      → presented allowed r ≡ some tok
      → authenticate c look now (token_aware admins allowed fallback) r w
        ≡ (elim (look w.tokens tok) as (λ f. Stores × Result AuthError Identity) [
          | none ↦ (w, err auth_failed)
          | some f ↦ (
            record w { tokens = touch_last_used now f.id w.tokens },
            ok (record { user = f.owner; is_admin = elem f.owner admins; groups = f.groups }),
          )
        ])
  unfolding authenticate
  authenticate-presented admins allowed fallback r w tok p =
      elim (Option-cases (look w.tokens tok)) [
        | inl unknown ↦ ground (arith, p)
        | inr (f, known) ↦ ground (arith, p, known)
      ]

-- What Lookup finds; it is never out of range in a store whose index is in step.
abbrev pub find_token : Crypto → ℕ → TokenStore → Str → Option Found
find_token c now s tok = elim (lookup_token c now tok s) [ none ↦ none | some found ↦ found ]

-- After RevokeByOwner on a store with its index in step, whether or not its write succeeds: a request
-- that presents a token is authenticated, if at all, as someone else than that owner, whatever
-- password or login session it brings along for the authenticator behind the tokens.
pub revoke_by_owner-authenticate :
    (c : Crypto) (now : ℕ) (admins : List Str) (allowed : Option (Str → Bool))
    (fallback : Authenticator) (r : Request) (written : Bool) (owner tok : Str) (w w' : Stores)
    (id : Identity)
    → IsIndexed w.tokens
    → presented allowed r ≡ some tok
    → authenticate c
        (find_token c now)
        now
        (token_aware admins allowed fallback)
        r
        (record w { tokens = (revoke_by_owner written owner w.tokens).0 })
      ≡ (w', ok id)
    → id.user ≢ owner
revoke_by_owner-authenticate c now admins allowed fallback r written owner tok w w' id indexed p e =
    let revoked = (revoke_by_owner written owner w.tokens).0 in
    let shown =
      authenticate-presented c (find_token c now) now admins allowed fallback r
        (record w { tokens = revoked }) tok p in
    elim (Option-cases (lookup_token c now tok revoked)) [
      | inl broken ↦ absurd (ground (arith, e, shown, broken))
      | inr (found, looked) ↦ elim (Option-cases found) [
        | inl unknown ↦ absurd (ground (arith, e, shown, looked, unknown))
        | inr (f, known) ↦
            let user : f.owner ≡ id.user = ground (arith, e, shown, looked, known) in
            subst (λ u. u ≢ owner) user
              (lookup_token-revoke_by_owner c now tok written owner w.tokens f indexed
                (ground (arith, looked, known)))
      ]
    ]
