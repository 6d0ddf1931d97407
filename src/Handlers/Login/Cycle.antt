-- ===== src/Handlers/Login/Cycle.antt =====
-- From logging in to logging out.
use selenwright.Prelude.{
  ℕ, ◌+◌, ◌≤◌, ◌≡◌, Bool, true, false, Option, none, some, Str, is_empty, ◌||◌, lookup-delete,
  ==_refl, ok, arith, Bool-cases, Result-cases, Option-cases, inl, inr, ap, ◌∙◌, subst, sym,
}
use selenwright.Protect.Access.{Identity}
use selenwright.Protect.Token.{Crypto}
use selenwright.Protect.Htpasswd.{HtpasswdAuthenticator, validate_credentials}
use selenwright.Protect.AuthSessions.{SessionStore, create, drop_session, validate}
use selenwright.Protect.AuthSessions.Expiry.{validate-create}
use selenwright.Handlers.Login.{Cookie, logged_in, login_handler, logout_handler}

login-made :
    (c : Crypto) (a : HtpasswdAuthenticator) (now : ℕ) (random : Option Str) (secure : Bool)
    (user pass : Str) (s : SessionStore) (cookie : Cookie) (id : Identity)
    → (login_handler c (some a) now random secure true (some (user, pass)) s).1
      ≡ logged_in cookie id
    → (validate_credentials c a user pass ≡ ok id)
      × (random ≡ some cookie.value)
      × ((login_handler c (some a) now random secure true (some (user, pass)) s).0
          ≡ (create now (some cookie.value) id s).0)
unfolding login_handler create
login-made c a now random secure user pass s cookie id e =
    elim (Bool-cases (is_empty user || is_empty pass)) [
      | inl bad ↦ absurd (ground (arith, e, bad))
      | inr given ↦ elim (Result-cases (validate_credentials c a user pass)) [
        | inl (x, refused) ↦ absurd (ground (arith, e, given, refused))
        | inr (who, fits) ↦ elim (Option-cases random) [
          | inl failed ↦ absurd (ground (arith, e, given, fits, failed))
          | inr (token, drawn) ↦
              let answer : logged_in (record { value = token; secure = secure; expired = false })
                    who
                  ≡ logged_in cookie id =
                ground (arith, e, given, fits, drawn) in
              let same_id : who ≡ id = ground (arith, answer) in
              let same_token : token ≡ cookie.value = ground (arith, answer) in
              let stored : (login_handler c (some a) now random secure true (some (user, pass)) s).0
                  ≡ (create now (some token) who s).0 =
                ground (arith, given, fits, drawn) in
              (
                fits ∙ ap (λ i. ok i) same_id,
                drawn ∙ ap (λ t. some t) same_token,
                stored
                    ∙ ap (λ t. (create now (some t) who s).0) same_token
                    ∙ ap (λ i. (create now (some cookie.value) i s).0) same_id,
              )
        ]
      ]
    ]

-- Where a login is answered with a cookie and an identity: the password is that user's, and the cookie
-- stands for that identity to everyone until the sessions' time to live is over; and from a logout with
-- it on it stands for none.
pub login_handler-cycle :
    (c : Crypto) (a : HtpasswdAuthenticator) (now later : ℕ) (random : Option Str) (secure : Bool)
    (user pass : Str) (s : SessionStore) (cookie : Cookie) (id : Identity)
    → (login_handler c (some a) now random secure true (some (user, pass)) s).1
      ≡ logged_in cookie id
    → later ≤ now + s.ttl
    → let s' = (login_handler c (some a) now random secure true (some (user, pass)) s).0 in
      (validate_credentials c a user pass ≡ ok id)
      × (validate later cookie.value s' ≡ (s', some id))
      × ((validate later cookie.value (logout_handler true (some cookie.value) s').0).1 ≡ none)
unfolding validate logout_handler drop_session
login_handler-cycle c a now later random secure user pass s cookie id e soon =
    let (fits, drawn, stored) = login-made c a now random secure user pass s cookie id e in
    let s' = (login_handler c (some a) now random secure true (some (user, pass)) s).0 in
    (
      fits,
      subst (λ x. validate later cookie.value x ≡ (x, some id)) (sym stored)
          (ground (arith, validate-create now later cookie.value id s, soon)),
      ground (arith, lookup-delete cookie.value cookie.value s'.sessions, ==_refl cookie.value),
    )
