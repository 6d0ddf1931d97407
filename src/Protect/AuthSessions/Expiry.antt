-- ===== src/Protect/AuthSessions/Expiry.antt =====
-- A login session lasts for its time to live, and cleaning up is invisible.
use selenwright.Prelude.{
  ℕ, ◌+◌, ◌≤◌, ◌≡◌, refl, [], ◌∷◌, Option, none, some, Str, StrMap, ==_iff, ==_refl, lookup,
  lookup-insert, KeysNodup, ltb, arith, if◌then◌else◌,
}
use selenwright.Protect.Access.{Identity}
use selenwright.Protect.AuthSessions.{
  AuthSession, SessionStore, create, drop_session, validate, live, remove_expired,
}

-- The token that Create returns stands for the identity until its time to live is over, for
-- whoever asks and as often, and changes nothing; after that it is refused and dropped.
pub validate-create :
    (now later : ℕ) (token : Str) (id : Identity) (s : SessionStore)
    → let s' = (create now (some token) id s).0 in
      validate later token s'
      ≡ (if ltb (now + s.ttl) later then (drop_session token s', none) else (s', some id))
unfolding validate create
validate-create now later token id s = ground (
  arith,
  lookup-insert token token (record { identity = id; expires_at = now + s.ttl }) s.sessions,
  ==_refl token,
)

lookup-live_old :
    (now later : ℕ) (token : Str) (m : StrMap AuthSession)
    → lookup token m ≡ none
    → lookup token (live now m) ≡ none
unfolding lookup live
lookup-live_old now later token [] e = refl
lookup-live_old now later token ((k, sess) ∷ m) e =
    ground (arith, lookup-live_old now later token m)

-- What a lookup would accept at the time `later`.
abbrev accepted : ℕ → Option AuthSession → Option Identity
accepted later none = none
accepted later (some sess) = if ltb sess.expires_at later then none else some sess.identity

lookup-live :
    (now later : ℕ) (token : Str) (m : StrMap AuthSession)
    → now ≤ later
    → KeysNodup m
    → accepted later (lookup token (live now m)) ≡ accepted later (lookup token m)
unfolding lookup live
lookup-live now later token [] h n = refl
lookup-live now later token ((k, sess) ∷ m) h n =
    ground (
      arith,
      lookup-live now later token m h n.1,
      lookup-live_old now later token m,
      ==_iff k token,
    )

-- Removing the expired sessions changes no answer of a later Validate, for any token.
validate-remove_expired :
    (now later : ℕ) (token : Str) (s : SessionStore)
    → now ≤ later
    → KeysNodup s.sessions
    → (validate later token (remove_expired now s)).1 ≡ (validate later token s).1
unfolding validate remove_expired
validate-remove_expired now later token s h n =
    ground (arith, lookup-live now later token s.sessions h n)
