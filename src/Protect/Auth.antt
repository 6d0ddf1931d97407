-- ===== src/Protect/Auth.antt =====
-- protect/auth.go and protect/session_auth.go: the authenticators and the middleware. The
-- interface Authenticator is a data type with a constructor for each of its implementations.
pub mod Anonymous
pub mod Tokens
pub mod Verdicts
use selenwright.Prelude.{
  ℕ, Bool, true, false, List, [], ◌∷◌, Option, none, some, Str, lit, ◌==◌, elem, is_empty,
  contains_any, equal_fold, split, trim_space, length, take, drop, Result, ok, err, leb, not, ◌&&◌,
  ◌||◌, if◌then◌else◌,
}
use selenwright.Protect.Access.{Identity}
use selenwright.Protect.Token.{Crypto, TokenStore, Found, touch_last_used}
use selenwright.Protect.AuthSessions.{SessionStore, validate}
use selenwright.Protect.Request.{Request}
use selenwright.Protect.Htpasswd.{
  AuthError, auth_required, auth_failed, HtpasswdAuthenticator, authenticate_basic, htpasswd_realm,
}

abbrev pub anonymous_identity : Identity
anonymous_identity = record { user = lit "unknown"; is_admin = false; groups = [] }

-- "\r\n\t"
abbrev pub control_chars : Str
control_chars = 13 ∷ 10 ∷ 9 ∷ []

-- The loop of parseGroupsHeader, with the groups seen so far.
pub collect_groups : List Str → List Str → List Str
collect_groups seen [] = []
collect_groups seen (p ∷ ps) =
    let g = trim_space p in
    let skip = collect_groups seen ps in
    let add = g ∷ collect_groups (g ∷ seen) ps in
    if is_empty g then skip else if elem g seen then skip else add

pub parse_groups_header : Str → Option (List Str)
unfolding collect_groups
parse_groups_header raw =
    if is_empty raw
    then some []
    else if contains_any raw control_chars
    then none
    else some (collect_groups [] (split b',' raw))

-- TrustedProxyAuthenticator, with the names of its headers for user, admin and groups.
unfoldable pub trusted_proxy_identity : Str → Str → Str → Request → Result AuthError Identity
unfolding parse_groups_header
trusted_proxy_identity user_header admin_header groups_header r =
    let user = r.header user_header in
    let admin = not (is_empty admin_header) && equal_fold (r.header admin_header) (lit "true") in
    if is_empty user
    then err auth_required
    else if contains_any user control_chars
    then err auth_failed
    else if is_empty groups_header
    then ok (record { user = user; is_admin = admin; groups = [] })
    else (elim (parse_groups_header (r.header groups_header)) [
      | none ↦ err auth_failed
      | some groups ↦ ok (record { user = user; is_admin = admin; groups = groups })
    ])

pub bearer_token : Request → Option Str
bearer_token r =
    let h = r.header (lit "Authorization") in
    if leb (length h) 7
    then none
    else if equal_fold (take 7 h) (lit "Bearer ")
    then (let tok = trim_space (drop 7 h) in if is_empty tok then none else some tok)
    else none

pub data Authenticator : Type 0 where
  none_auth : Authenticator
  token_only : Authenticator
  trusted_proxy : Str → Str → Str → Authenticator
  htpasswd : HtpasswdAuthenticator → Authenticator
  -- CookieName and Fallback
  session_aware : Str → Authenticator → Authenticator
  -- Admins, QueryAllowedPath and Fallback; `token_alone` has no fallback
  token_aware : List Str → Option (Str → Bool) → Authenticator → Authenticator
  token_alone : List Str → Option (Str → Bool) → Authenticator

-- The stores that the authenticators share.
pub record Stores : Type 0 where
  pub tokens : TokenStore
  pub sessions : SessionStore

-- The token that a request presents: the bearer token first, then the query parameter on the
-- paths that allow it.
unfoldable pub presented : Option (Str → Bool) → Request → Option Str
unfolding bearer_token
presented allowed r = elim (bearer_token r) [
  | some tok ↦ some tok
  | none ↦ elim allowed [
    | none ↦ none
    | some allows ↦
        if allows r.path && not (is_empty r.query_token) then some r.query_token else none
  ]
]

-- `look` is the method Lookup of the interface TokenLookup.
module _ (c : Crypto) (look : TokenStore → Str → Option Found) (now : ℕ) where
  pub validate_token : List Str → Str → Stores → Stores × Result AuthError Identity
  validate_token admins tok w = elim (look w.tokens tok) [
    | none ↦ (w, err auth_failed)
    | some found ↦ (
      record w { tokens = touch_last_used now found.id w.tokens },
      ok (record { user = found.owner; is_admin = elem found.owner admins; groups = found.groups }),
    )
  ]

  -- The session of the cookie, if there is one.
  pub cookie_identity : Str → Request → Stores → Stores × Option Identity
  cookie_identity cookie_name r w = elim (r.cookie cookie_name) [
    | none ↦ (w, none)
    | some value ↦
        if is_empty value
        then (w, none)
        else let (sessions', found) = validate now value w.sessions in
          (record w { sessions = sessions' }, found)
  ]

  unfoldable pub authenticate :
      Authenticator → Request → Stores → Stores × Result AuthError Identity
  unfolding validate_token cookie_identity
  authenticate none_auth r w = (w, ok anonymous_identity)
  authenticate token_only r w = (w, err auth_required)
  authenticate (trusted_proxy user admin groups) r w =
      (w, trusted_proxy_identity user admin groups r)
  authenticate (htpasswd h) r w = (w, authenticate_basic c h r)
  authenticate (session_aware cookie_name fallback) r w =
      let (w', found) = cookie_identity cookie_name r w in
      elim found [ some id ↦ (w', ok id) | none ↦ authenticate fallback r w' ]
  authenticate (token_aware admins allowed fallback) r w = elim (presented allowed r) [
    | some tok ↦ validate_token admins tok w
    | none ↦ authenticate fallback r w
  ]
  authenticate (token_alone admins allowed) r w = elim (presented allowed r) [
    | some tok ↦ validate_token admins tok w
    | none ↦ (w, err auth_required)
  ]

abbrev pub realm : Authenticator → Str
realm none_auth = []
realm token_only = []
realm (trusted_proxy user admin groups) = []
realm (htpasswd h) = htpasswd_realm
realm (session_aware cookie_name fallback) = realm fallback
realm (token_aware admins allowed fallback) = realm fallback
realm (token_alone admins allowed) = []

-- What the middleware does: 401 with a realm, or the request handed on, with the identity in its
-- context unless the path is open.
pub data Verdict : Type 0 where
  unauthorized : Str → Verdict
  passed : Request → Option Identity → Verdict

abbrev pub strip_token_query : Request → Request
strip_token_query r =
    if r.query_has_token then record r { query_has_token = false; query_token = [] } else r

unfoldable pub auth_middleware :
    Crypto
    → (TokenStore → Str → Option Found)
    → ℕ
    → List Str
    → Authenticator
    → Request
    → Stores
    → Stores × Verdict
auth_middleware c look now open_paths auth r w =
    if elem r.path open_paths
    then (w, passed (strip_token_query r) none)
    else let (w', result) = authenticate c look now auth r w in
      elim result [
        | err e ↦ (w', unauthorized (realm auth))
        | ok id ↦ (w', passed (strip_token_query r) (some id))
      ]
