-- ===== src/Protect/Auth/Anonymous.antt =====
-- What the service does with a request that carries no credentials.
use selenwright.Prelude.{
  ℕ, ◌≡◌, refl, Bool, false, List, [], Option, none, some, Str, lit, elem, err, arith,
}
use selenwright.Protect.Token.{Crypto, TokenStore, Found}
use selenwright.Protect.Request.{Request}
use selenwright.Protect.Htpasswd.{auth_required, authenticate_basic}
use selenwright.Protect.Auth.{
  Authenticator, Stores, none_auth, token_only, trusted_proxy, htpasswd, session_aware, token_aware,
  token_alone, trusted_proxy_identity, presented, authenticate, auth_middleware, unauthorized,
  realm,
}

-- The request has nothing that the authenticator would read as a credential, and the
-- authenticator under the wrappers is not the one of -auth-mode=none, which asks for nothing.
abbrev pub Lacks : Authenticator → Request → Type 0
Lacks none_auth r = ⊥
Lacks token_only r = Unit
Lacks (trusted_proxy user admin groups) r = r.header user ≡ []
Lacks (htpasswd h) r = r.basic_auth ≡ none
Lacks (session_aware cookie_name fallback) r = (r.cookie cookie_name ≡ none) × Lacks fallback r
Lacks (token_aware admins allowed fallback) r =
    (r.header (lit "Authorization") ≡ []) × (r.query_token ≡ []) × Lacks fallback r
Lacks (token_alone admins allowed) r = (r.header (lit "Authorization") ≡ []) × (r.query_token ≡ [])

presented-none :
    (allowed : Option (Str → Bool)) (r : Request)
    → r.header (lit "Authorization") ≡ []
    → r.query_token ≡ []
    → presented allowed r ≡ none
unfolding presented
presented-none none r h q = ground arith
presented-none (some allows) r h q = ground arith

module _ (c : Crypto) (look : TokenStore → Str → Option Found) (now : ℕ) where
  authenticate-Lacks :
      (a : Authenticator) (r : Request) (w : Stores)
      → Lacks a r
      → authenticate c look now a r w ≡ (w, err auth_required)
  unfolding authenticate
  authenticate-Lacks none_auth r w l = absurd l
  authenticate-Lacks token_only r w l = refl
  authenticate-Lacks (trusted_proxy user admin groups) r w l =
      unfold trusted_proxy_identity in (ground arith)
  authenticate-Lacks (htpasswd h) r w l = unfold authenticate_basic in (ground arith)
  authenticate-Lacks (session_aware cookie_name fallback) r w l =
      ground (arith, authenticate-Lacks fallback r w l.1)
  authenticate-Lacks (token_aware admins allowed fallback) r w l =
      ground (arith, presented-none allowed r l.0 l.1, authenticate-Lacks fallback r w l.2)
  authenticate-Lacks (token_alone admins allowed) r w l =
      ground (arith, presented-none allowed r l.0 l.1)

  -- Unless the service runs without authentication, a request with no credentials gets 401 on
  -- every path that is not open, and changes no store.
  pub auth_middleware-Lacks :
      (open_paths : List Str) (a : Authenticator) (r : Request) (w : Stores)
      → elem r.path open_paths ≡ false
      → Lacks a r
      → auth_middleware c look now open_paths a r w ≡ (w, unauthorized (realm a))
  unfolding auth_middleware
  auth_middleware-Lacks open_paths a r w closed l = ground (arith, authenticate-Lacks a r w l)
