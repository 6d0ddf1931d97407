-- ===== src/Protect/AuthSessions.antt =====
-- protect/session_store.go: login sessions in memory. Times are nanoseconds, and the clock and
-- the random token are arguments.
pub mod Expiry
use selenwright.Prelude.{
  ℕ, ◌+◌, ◌/◌, Bool, true, false, List, [], ◌∷◌, Option, none, some, Str, StrMap, lookup, insert,
  delete, ltb, if◌then◌else◌,
}
use selenwright.Protect.Access.{Identity}

pub record AuthSession : Type 0 where
  pub identity : Identity
  pub expires_at : ℕ

pub record SessionStore : Type 0 where
  pub sessions : StrMap AuthSession
  pub ttl : ℕ
  pub stop_closed : Bool

pub new_session_store : ℕ → SessionStore
new_session_store ttl = record { sessions = []; ttl = ttl; stop_closed = false }

-- `random` is the token in hexadecimal, `none` if rand.Read fails.
unfoldable pub create : ℕ → Option Str → Identity → SessionStore → SessionStore × Option Str
create now none id s = (s, none)
create now (some token) id s = (
  record s {
    sessions = insert token (record { identity = id; expires_at = now + s.ttl }) s.sessions;
  },
  some token,
)

unfoldable pub drop_session : Str → SessionStore → SessionStore
drop_session token s = record s { sessions = delete token s.sessions }

-- The lookup, the clock and the deletion are taken as one step.
unfoldable pub validate : ℕ → Str → SessionStore → SessionStore × Option Identity
unfolding drop_session
validate now token s = elim (lookup token s.sessions) [
  | none ↦ (s, none)
  | some sess ↦
      if ltb sess.expires_at now then (drop_session token s, none) else (s, some sess.identity)
]

abbrev pub stop : SessionStore → SessionStore
stop s = record s { stop_closed = true }

-- The period of the cleanup goroutine: half the lifetime, and a minute at least.
abbrev pub cleanup_interval : SessionStore → ℕ
cleanup_interval s =
    let half = s.ttl / 2 in if ltb half 60_000_000_000 then 60_000_000_000 else half

pub live : ℕ → StrMap AuthSession → StrMap AuthSession
live now [] = []
live now ((token, sess) ∷ m) =
    if ltb sess.expires_at now then live now m else (token, sess) ∷ live now m

pub remove_expired : ℕ → SessionStore → SessionStore
unfolding live
remove_expired now s = record s { sessions = live now s.sessions }
