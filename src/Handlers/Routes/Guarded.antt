-- ===== src/Handlers/Routes/Guarded.antt =====
-- Who reaches the handler of a session.
use selenwright.Prelude.{
  ℕ, ◌≡◌, refl, Bool, true, false, [], Option, some, Str, lit, lookup, is_empty, equal_fold, elem,
  ℤ, arith, ok, Result-cases, Bool-cases, inl, inr, ◌==◌, if◌then◌else◌,
}
use selenwright.Protect.Request.{Request}
use selenwright.Protect.Access.{Identity, session_access, extract_session_id}
use selenwright.Protect.Token.{Crypto, TokenStore, Found}
use selenwright.Protect.SourceTrust.{Network, SourceTrust, source_trust_middleware}
use selenwright.Protect.Auth.{
  Authenticator, none_auth, token_only, trusted_proxy, htpasswd, session_aware, token_aware,
  token_alone, Stores, authenticate, realm, strip_token_query,
}
use selenwright.Protect.Auth.Anonymous.{Lacks, auth_middleware-Lacks}
use selenwright.Protect.Auth.Verdicts.{auth_middleware-ok, auth_middleware-err}
use selenwright.Protect.Queue.{Semaphore}
use selenwright.Session.{Session, SessionMap}
use selenwright.Handlers.App.{App}
use selenwright.Handlers.Proxy.{Outcome}
use selenwright.Handlers.Routes.{
  hub, open_paths, gate_session_owner, trim_prefix, distrusted, unauthenticated, served,
  hub_session, idle_delete, serve_session,
}

-- Authentication is asked for, and a user is not read from the header lines that every client
-- sends.
abbrev pub Asks : Authenticator → Type 0
Asks none_auth = ⊥
Asks token_only = Unit
Asks (trusted_proxy user admin groups) =
    (equal_fold user (lit "User-Agent") ≡ false) × (equal_fold user (lit "Accept-Encoding") ≡ false)
Asks (htpasswd h) = Unit
Asks (session_aware cookie_name fallback) = Asks fallback
Asks (token_aware admins allowed fallback) = Asks fallback
Asks (token_alone admins allowed) = Unit

no_bearer : (agent id : Str) → (idle_delete agent id).header (lit "Authorization") ≡ []
unfolding idle_delete equal_fold
no_bearer agent id = refl

idle_delete-Lacks : (agent id : Str) (a : Authenticator) → Asks a → Lacks a (idle_delete agent id)
unfolding idle_delete
idle_delete-Lacks agent id none_auth k = k
idle_delete-Lacks agent id token_only k = tt
idle_delete-Lacks agent id (trusted_proxy user admin groups) k = ground (arith, k.0, k.1)
idle_delete-Lacks agent id (htpasswd h) k = refl
idle_delete-Lacks agent id (session_aware cookie_name fallback) k =
    (refl, idle_delete-Lacks agent id fallback k)
idle_delete-Lacks agent id (token_aware admins allowed fallback) k =
    (no_bearer agent id, refl, idle_delete-Lacks agent id fallback k)
idle_delete-Lacks agent id (token_alone admins allowed) k = (no_bearer agent id, refl)

closed_path : (agent id : Str) → elem (idle_delete agent id).path open_paths ≡ false
unfolding idle_delete elem ◌==◌
closed_path agent id = refl

module _ (s : Semaphore) (net : Network) (c : Crypto) (look : TokenStore → Str → Option Found)
    (now : ℕ) (clock : ℤ) where
  gate_session_owner-some :
      (sessions : SessionMap) (identity : Identity) (path id : Str) (sess : Session)
      → extract_session_id path 2 ≡ id
      → is_empty id ≡ false
      → lookup id sessions ≡ some sess
      → gate_session_owner 2 sessions (some identity) path
        ≡ session_access identity sess.quota sess.owner_groups
  unfolding gate_session_owner
  gate_session_owner-some sessions identity path id sess named given found =
      ground (arith, named, given, found)

  serve_session-access :
      (r : Request) (identity : Identity) (w w' : Stores) (completes : Bool) (app app' : App s)
      (o : Outcome) (id : Str) (sess : Session)
      → extract_session_id (trim_prefix r.path hub) 2 ≡ id
      → is_empty id ≡ false
      → lookup id app.sessions ≡ some sess
      → serve_session s clock completes r (some identity) w app ≡ (w', served app' o)
      → (session_access identity sess.quota sess.owner_groups ≡ true) × (w ≡ w')
  unfolding serve_session
  serve_session-access r identity w w' completes app app' o id sess named given found e = ground (
    arith,
    e,
    gate_session_owner-some app.sessions identity (trim_prefix r.path hub) id sess named given
        found,
  )

  -- The request by which the service ends an idle session gets 401 wherever authentication is
  -- asked for, if the check of its source lets it through at all: the session stays.
  pub idle_delete_rejected :
      (completes : Bool) (trust : Option (SourceTrust net)) (a : Authenticator) (agent id : Str)
      (w : Stores) (app : App s)
      → Asks a
      → hub_session s net c look now clock completes trust a (idle_delete agent id) w app ≡ (
          if source_trust_middleware net open_paths trust (idle_delete agent id)
          then (w, unauthenticated (realm a))
          else (w, distrusted))
  unfolding hub_session
  idle_delete_rejected completes trust a agent id w app k = ground (
    arith,
    auth_middleware-Lacks c look now open_paths a (idle_delete agent id) w (closed_path agent id)
        (idle_delete-Lacks agent id a k),
  )

  -- Where a request is served that names a running session, its source has been trusted and it has
  -- been authenticated as someone who may use the session.
  pub hub_session_guarded :
      (completes : Bool) (trust : Option (SourceTrust net)) (a : Authenticator) (r : Request)
      (w w' : Stores) (app app' : App s) (o : Outcome) (id : Str) (sess : Session)
      → elem r.path open_paths ≡ false
      → extract_session_id (trim_prefix r.path hub) 2 ≡ id
      → is_empty id ≡ false
      → lookup id app.sessions ≡ some sess
      → hub_session s net c look now clock completes trust a r w app ≡ (w', served app' o)
      → (source_trust_middleware net open_paths trust r ≡ true)
        × ((identity : Identity) × (authenticate c look now a r w ≡ (w', ok identity))
            × (session_access identity sess.quota sess.owner_groups ≡ true))
  unfolding hub_session
  hub_session_guarded completes trust a r w w' app app' o id sess closed named given found e =
      elim (Bool-cases (source_trust_middleware net open_paths trust r)) [
        | inr foreign ↦ absurd (ground (arith, e, foreign))
        | inl trusted ↦
            let end = authenticate c look now a r w in
            elim (Result-cases end.1) [
              | inl (bad, failed) ↦
                  let verdict =
                    auth_middleware-err c look now open_paths a r w end.0 bad closed
                      (ground (arith, failed)) in
                  absurd (ground (arith, e, trusted, verdict))
              | inr (identity, known) ↦
                  let logged : authenticate c look now a r w ≡ (end.0, ok identity) =
                    ground (arith, known) in
                  let verdict =
                    auth_middleware-ok c look now open_paths a r w end.0 identity closed logged in
                  let served_by : serve_session s clock completes (strip_token_query r)
                        (some identity) end.0 app
                      ≡ (w', served app' o) =
                    ground (arith, e, trusted, verdict) in
                  let (may, same) =
                    serve_session-access (strip_token_query r) identity end.0 w' completes app app'
                      o id sess (ground arith) given found served_by in
                  (trusted, (identity, ground (arith, logged, same), may))
            ]
      ]
