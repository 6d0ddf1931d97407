-- ===== src/Protect/Auth/Verdicts.antt =====
-- The two ways a request leaves the middleware on a path that is not open.
use selenwright.Prelude.{ℕ, ◌≡◌, false, List, Option, some, Str, elem, ok, err, arith}
use selenwright.Protect.Access.{Identity}
use selenwright.Protect.Token.{Crypto, TokenStore, Found}
use selenwright.Protect.Request.{Request}
use selenwright.Protect.Htpasswd.{AuthError}
use selenwright.Protect.Auth.{
  Authenticator, Stores, authenticate, auth_middleware, unauthorized, passed, realm,
  strip_token_query,
}

module _ (c : Crypto) (look : TokenStore → Str → Option Found) (now : ℕ)
    (open_paths : List Str) where
  pub auth_middleware-ok :
      (a : Authenticator) (r : Request) (w w' : Stores) (id : Identity)
      → elem r.path open_paths ≡ false
      → authenticate c look now a r w ≡ (w', ok id)
      → auth_middleware c look now open_paths a r w ≡ (w', passed (strip_token_query r) (some id))
  unfolding auth_middleware
  auth_middleware-ok a r w w' id closed e = ground arith

  pub auth_middleware-err :
      (a : Authenticator) (r : Request) (w w' : Stores) (e : AuthError)
      → elem r.path open_paths ≡ false
      → authenticate c look now a r w ≡ (w', err e)
      → auth_middleware c look now open_paths a r w ≡ (w', unauthorized (realm a))
  unfolding auth_middleware
  auth_middleware-err a r w w' bad closed e = ground arith
