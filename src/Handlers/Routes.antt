-- ===== src/Handlers/Routes.antt =====
-- main.go: the way of a request to the handlers of a session, and the request that
-- selenwright.go itself makes when a session has been idle for too long.
pub mod Guarded
use selenwright.Prelude.{
  ℕ, Bool, true, false, List, [], ◌∷◌, ◌++◌, Option, none, some, Str, lit, lookup, drop, length,
  has_prefix, is_empty, equal_fold, ◌||◌, if◌then◌else◌, ℤ, ◌==◌, not,
}
use selenwright.Protect.Request.{Request}
use selenwright.Protect.Access.{Identity, no_identity, session_access, extract_session_id}
use selenwright.Protect.Token.{Crypto, TokenStore, Found}
use selenwright.Protect.SourceTrust.{Network, SourceTrust, source_trust_middleware}
use selenwright.Protect.Auth.{Authenticator, Stores, auth_middleware, unauthorized, passed}
use selenwright.Protect.Queue.{Semaphore}
use selenwright.Session.{SessionMap}
use selenwright.Handlers.App.{App}
use selenwright.Handlers.Proxy.{Outcome, proxy}

abbrev pub hub : Str
hub = lit "/wd/hub"

-- `openPaths`, to which a service with metrics enabled adds the path of these; here they are disabled.
abbrev pub open_paths : List Str
open_paths =
    lit "/ping" ∷ lit "/error" ∷ lit "/" ∷ lit "/whoami" ∷ lit "/login" ∷ lit "/logout" ∷ []

pub is_token_query_allowed_path : Str → Bool
is_token_query_allowed_path p =
    has_prefix p (lit "/playwright/")
    || has_prefix p (hub ++ lit "/")
    || has_prefix p (lit "/devtools/")
    || has_prefix p (lit "/vnc/")
    || has_prefix p (lit "/logs/")

-- Whether gateSessionOwner hands a request on; otherwise it answers 403.
unfoldable pub gate_session_owner : ℕ → SessionMap → Option Identity → Str → Bool
gate_session_owner id_index sessions context path =
    let sid = extract_session_id path id_index in
    let identity : Identity = elim context [ none ↦ no_identity | some i ↦ i ] in
    if is_empty sid then true else (elim (lookup sid sessions) [
      | none ↦ true
      | some sess ↦ session_access identity sess.quota sess.owner_groups
    ])

abbrev pub trim_prefix : Str → Str → Str
trim_prefix path prefix = if has_prefix path prefix then drop (length prefix) path else path

module _ (s : Semaphore) where
  pub data Answer : Type 0 where
    distrusted forbidden panicked : Answer
    unauthenticated : Str → Answer
    served : App s → Outcome → Answer

  -- Behind authentication: the prefix's removal, the owner's check and then the handler.
  unfoldable pub serve_session :
      ℤ → Bool → Request → Option Identity → Stores → App s → Stores × Answer
  unfolding gate_session_owner
  serve_session clock completes r context w app =
      let path = trim_prefix r.path hub in
      if gate_session_owner 2 app.sessions context path
      then (elim (proxy s clock completes (r.method == lit "DELETE") path app) [
        | none ↦ (w, panicked)
        | some (app', o) ↦ (w, served app' o)
      ])
      else (w, forbidden)

  -- What a request to /wd/hub/session/... meets.
  unfoldable pub hub_session :
      (net : Network)
      → Crypto
      → (TokenStore → Str → Option Found)
      → ℕ
      → ℤ
      → Bool
      → Option (SourceTrust net)
      → Authenticator
      → Request
      → Stores
      → App s
      → Stores × Answer
  unfolding serve_session
  hub_session net c look now clock completes trust auth r w app =
      if source_trust_middleware net open_paths trust r
      then (let (w', verdict) = auth_middleware c look now open_paths auth r w in
          elim verdict [
            | unauthorized realm ↦ (w', unauthenticated realm)
            | passed r' context ↦ serve_session clock completes r' context w' app
          ])
      else (w, distrusted)

-- The request of `sess.Delete`, with the header lines that net/http adds to it.
unfoldable pub idle_delete : Str → Str → Request
idle_delete agent id = record {
  method = lit "DELETE";
  path = hub ++ lit "/session/" ++ id;
  header = λ name.
      if equal_fold name (lit "User-Agent")
      then agent
      else if equal_fold name (lit "Accept-Encoding")
      then lit "gzip"
      else [];
  query_has_token = false;
  query_token = [];
  cookie = λ name. none;
  basic_auth = none;
  remote_addr = lit "127.0.0.1:0";
  verified_chains = none;
}
