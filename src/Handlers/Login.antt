-- ===== src/Handlers/Login.antt =====
-- login.go and whoami.go: logging in with a user's password, logging out, and asking who one is.
pub mod Cycle
use selenwright.Prelude.{
  ℕ, Bool, true, false, List, [], Option, none, some, Str, is_empty, not, ◌||◌, if◌then◌else◌,
  Result, ok, err,
}
use selenwright.Protect.Access.{Identity}
use selenwright.Protect.Token.{Crypto, TokenStore, Found}
use selenwright.Protect.Htpasswd.{HtpasswdAuthenticator, validate_credentials}
use selenwright.Protect.AuthSessions.{SessionStore, create, drop_session}
use selenwright.Protect.Request.{Request}
use selenwright.Protect.Auth.{Authenticator, Stores, authenticate, anonymous_identity}

-- The cookie that is set: its value, whether it is for TLS alone, and whether it ends at once.
pub record Cookie : Type 0 where
  pub value : Str
  pub secure : Bool
  pub expired : Bool

pub data LoginAnswer : Type 0 where
  method_not_allowed not_found fields_required invalid_credentials : LoginAnswer
  session_failed : LoginAnswer
  logged_in : Cookie → Identity → LoginAnswer
  logged_out : Cookie → LoginAnswer

-- isSecureRequest: over TLS, or forwarded by a proxy that says so.
abbrev pub is_secure_request : Bool → Bool → Bool
is_secure_request tls forwarded_https = tls || forwarded_https

-- `random` is the token of the new session, `body` the user and the password, none where it is invalid.
unfoldable pub login_handler :
    Crypto
    → Option HtpasswdAuthenticator
    → ℕ
    → Option Str
    → Bool
    → Bool
    → Option (Str × Str)
    → SessionStore
    → SessionStore × LoginAnswer
login_handler c none now random secure posts body s =
    (s, if posts then not_found else method_not_allowed)
login_handler c (some a) now random secure false body s = (s, method_not_allowed)
login_handler c (some a) now random secure true none s = (s, fields_required)
login_handler c (some a) now random secure true (some (user, pass)) s =
    if is_empty user || is_empty pass
    then (s, fields_required)
    else (elim (validate_credentials c a user pass) [
      | err e ↦ (s, invalid_credentials)
      | ok identity ↦
          let (s', made) = create now random identity s in
          (
            s',
            (elim made [
              | none ↦ session_failed
              | some token ↦
                  logged_in (record { value = token; secure = secure; expired = false }) identity
            ]),
          )
    ])

-- `cookie` is the value of the request's session cookie.
unfoldable pub logout_handler : Bool → Option Str → SessionStore → SessionStore × LoginAnswer
logout_handler false cookie s = (s, method_not_allowed)
logout_handler true cookie s =
    let gone = logged_out (record { value = []; secure = false; expired = true }) in
    elim cookie [ none ↦ (s, gone) | some token ↦ (drop_session token s, gone) ]

-- tryAuthenticate: the identity of the context, or what the authenticator, where there is one, says.
unfoldable pub try_authenticate :
    Crypto
    → (TokenStore → Str → Option Found)
    → ℕ
    → Option Identity
    → Option Authenticator
    → Request
    → Stores
    → Stores × Identity × Bool
try_authenticate c find now (some id) auth r w = (w, id, true)
try_authenticate c find now none none r w = (w, anonymous_identity, false)
try_authenticate c find now none (some a) r w =
    let (w', found) = authenticate c find now a r w in
    elim found [ err e ↦ (w', anonymous_identity, false) | ok id ↦ (w', id, true) ]
