-- ===== src/Tests/Protection.antt =====
-- Runs of the package protect.
use selenwright.Prelude.{
  ◌≢◌, ◌≡◌, ◌↔◌, refl, true, false, List, [], ◌∷◌, Option, none, some, Str, lit, arith, pos, ok,
  is_empty, KeysNodup, trim_space, elem, ◌==◌, StrMap, equal_fold, has_prefix, lookup, insert,
  if◌then◌else◌,
}
use selenwright.Tests.{slots, plain_crypto, no_network}
use selenwright.Protect.Queue.{Queue, too_many_requests, queue_full, try}
use selenwright.Protect.Queue.Balance.{Balanced}
use selenwright.Protect.Queue.Admit.{try_full, try-Balanced, Answers}
use selenwright.Protect.Access.{Identity, session_access}
use selenwright.Protect.Access.Groups.{Entitled, session_access_iff}
use selenwright.Protect.Request.{Request}
use selenwright.Protect.Htpasswd.{
  HtpasswdAuthenticator, validate_credentials, parse_line, parse_lines, index_byte, is_bcrypt_hash,
  parse_htpasswd,
}
use selenwright.Protect.Htpasswd.Parsing.{WellFormed, parse_htpasswd_lem}
use selenwright.Protect.SourceTrust.{
  SourceTrustConfig, update, source_trust_middleware, new_source_trust,
}
use selenwright.Protect.SourceTrust.Trusted.{Shown, source_trust_middleware-update_iff}
use selenwright.Protect.AuthSessions.{SessionStore, create, validate}
use selenwright.Protect.Auth.{
  token_only, token_aware, Stores, authenticate, auth_middleware, unauthorized, presented,
}
use selenwright.Protect.Auth.Anonymous.{auth_middleware-Lacks}
use selenwright.Protect.Auth.Tokens.{find_token, revoke_by_owner-authenticate}
use selenwright.Protect.Token.Index.{IsIndexed}
use selenwright.Protect.Token.{
  TokenStore, TokenRecord, Found, touch_last_used, revoke_by_owner, lookup_token, index_from,
  hash_prefix,
}
use selenwright.Handlers.Login.{Cookie, logged_in, login_handler, logout_handler}
use selenwright.Handlers.Login.Cycle.{login_handler-cycle}

abbrev one_slot : Queue slots
one_slot = record {
  disabled = false;
  limit = (0, 1);
  size = 1;
  used = pos 0;
  pending = pos 0;
  queued = pos 0;
}

one_slot-Balanced : Balanced slots 0 0 one_slot
one_slot-Balanced = record {
  is_used = refl;
  is_pending = refl;
  holds = refl;
  capacity = refl;
  within = omega arith;
}

-- A queue with its only slot taken.
abbrev full_queue : Queue slots
full_queue = record {
  disabled = true;
  limit = (1, 1);
  size = 1;
  used = pos 1;
  pending = pos 0;
  queued = pos 0;
}

full_queue-Balanced : Balanced slots 1 0 full_queue
full_queue-Balanced = record {
  is_used = refl;
  is_pending = refl;
  holds = refl;
  capacity = refl;
  within = omega arith;
}

try_full_example : try slots full_queue false true ≡ some (queue_full full_queue)
try_full_example = try_full slots 1 0 full_queue false true full_queue-Balanced refl

try-Balanced_example : Answers slots 1 0 (too_many_requests full_queue)
try-Balanced_example =
    try-Balanced slots 1 0 full_queue true false (too_many_requests full_queue) full_queue-Balanced
      (try_full slots 1 0 full_queue true false full_queue-Balanced refl)

abbrev alice : Identity
alice = record { user = lit "alice"; is_admin = false; groups = lit "qa" ∷ [] }

session_access_iff_example :
    (session_access alice (lit "bob") (lit "qa" ∷ []) ≡ true)
    ↔ Entitled alice (lit "bob") (lit "qa" ∷ [])
session_access_iff_example = session_access_iff alice (lit "bob") (lit "qa" ∷ [])

abbrev bare_request : Request
bare_request = record {
  method = lit "GET";
  path = lit "/status";
  header = λ name. [];
  query_has_token = false;
  query_token = [];
  cookie = λ name. none;
  basic_auth = none;
  remote_addr = lit "10.0.0.1";
  verified_chains = none;
}

abbrev with_token : Request
with_token = record bare_request {
  header = λ name. if name == lit "Authorization" then lit "Bearer swr_live_1" else [];
}

abbrev one_token : TokenRecord
one_token = record {
  id = lit "tok_1";
  hash_prefix = lit "swr_";
  hash = lit "swr_live_1";
  owner = lit "alice";
  owner_groups = lit "qa" ∷ [];
  name = lit "ci";
  created_at = 0;
  last_used_at = none;
  expires_at = none;
}

abbrev no_tokens : TokenStore
no_tokens = record { tokens = []; by_prefix = []; pending_touch = []; disk = [] }

abbrev no_stores : Stores
no_stores = record {
  tokens = no_tokens;
  sessions = record { sessions = []; ttl = 60; stop_closed = false };
}

abbrev alice_found : Found
alice_found = record { owner = lit "alice"; groups = lit "qa" ∷ []; id = lit "tok_1" }

abbrev look_alice : TokenStore → Str → Option Found
look_alice s tok = if tok == lit "swr_live_1" then some alice_found else none

presents : presented none with_token ≡ some (lit "swr_live_1")
unfolding presented ◌==◌ equal_fold trim_space
presents = refl

abbrev alice_stores : Stores
alice_stores = record no_stores {
  tokens = record no_tokens { tokens = one_token ∷ []; by_prefix = (lit "swr_", 0 ∷ []) ∷ [] };
}

alice_stores-IsIndexed : IsIndexed alice_stores.tokens
unfolding index_from ◌==◌ lookup insert
alice_stores-IsIndexed = refl

abbrev bob_revoked : Stores
bob_revoked = record alice_stores {
  tokens = (revoke_by_owner true (lit "bob") alice_stores.tokens).0;
}

alice_known :
    authenticate plain_crypto
      (find_token plain_crypto 5)
      5
      (token_aware [] none token_only)
      with_token
      bob_revoked
    ≡ (record bob_revoked { tokens = touch_last_used 5 (lit "tok_1") bob_revoked.tokens }, ok alice)
unfolding authenticate lookup_token revoke_by_owner presented ◌==◌ elem equal_fold trim_space lookup
    insert has_prefix hash_prefix index_from
alice_known = refl

revoke_by_owner-authenticate_example : lit "alice" ≢ lit "bob"
revoke_by_owner-authenticate_example =
    revoke_by_owner-authenticate plain_crypto 5 [] none token_only with_token true (lit "bob")
      (lit "swr_live_1") alice_stores
      (record bob_revoked { tokens = touch_last_used 5 (lit "tok_1") bob_revoked.tokens }) alice
      alice_stores-IsIndexed presents alice_known

auth_middleware-Lacks_example :
    auth_middleware plain_crypto look_alice 5
      (lit "/ping" ∷ [])
      (token_aware [] none token_only)
      bare_request
      no_stores
    ≡ (no_stores, unauthorized [])
auth_middleware-Lacks_example =
    auth_middleware-Lacks plain_crypto look_alice 5 (lit "/ping" ∷ [])
      (token_aware [] none token_only) bare_request no_stores (unfold elem ◌==◌ in refl)
      (refl, refl, tt)

abbrev secret_only : SourceTrustConfig no_network
secret_only = record {
  secret = lit "s";
  trusted_cidrs = [];
  require_mtls = false;
  allowed_root_cas = none;
  strip_headers = none;
}

source_trust_middleware-update_iff_example :
    (source_trust_middleware no_network
        (lit "/ping" ∷ [])
        (some (update no_network secret_only (new_source_trust no_network secret_only)))
        bare_request
      ≡ true)
    ↔ Shown no_network secret_only bare_request
source_trust_middleware-update_iff_example =
    source_trust_middleware-update_iff no_network (lit "/ping" ∷ []) secret_only
      (new_source_trust no_network secret_only) bare_request (unfold elem ◌==◌ in refl)

abbrev fresh_store : SessionStore
fresh_store = record { sessions = []; ttl = 60; stop_closed = false }

abbrev one_user : StrMap Str
one_user = (lit "alice", lit "$2y$05$hash") ∷ []

abbrev password_file : List Str
password_file = lit "# users" ∷ lit "alice:$2y$05$hash" ∷ []

password_file-parsed : parse_htpasswd password_file true ≡ ok one_user
unfolding parse_htpasswd parse_lines parse_line index_byte is_bcrypt_hash trim_space has_prefix ◌==◌
    lookup insert
password_file-parsed = refl

parse_htpasswd_lem_example : WellFormed one_user × KeysNodup one_user × (is_empty one_user ≡ false)
parse_htpasswd_lem_example = parse_htpasswd_lem password_file true one_user password_file-parsed

abbrev users : HtpasswdAuthenticator
users = record {
  entries = (lit "alice", lit "secret") ∷ [];
  admins = [];
  groups_for = λ user. lit "qa" ∷ [];
}

abbrev alice_cookie : Cookie
alice_cookie = record { value = lit "t"; secure = true; expired = false }

logs_in :
    (login_handler plain_crypto
      (some users)
      0
      (some (lit "t"))
      true
      true
      (some (lit "alice", lit "secret"))
      fresh_store).1
    ≡ logged_in alice_cookie alice
unfolding login_handler validate_credentials create lookup ◌==◌ elem
logs_in = refl

login_handler-cycle_example :
    let s' =
      (login_handler plain_crypto
        (some users)
        0
        (some (lit "t"))
        true
        true
        (some (lit "alice", lit "secret"))
        fresh_store).0 in
    (validate_credentials plain_crypto users (lit "alice") (lit "secret") ≡ ok alice)
    × (validate 60 (lit "t") s' ≡ (s', some alice))
    × ((validate 60 (lit "t") (logout_handler true (some (lit "t")) s').0).1 ≡ none)
login_handler-cycle_example =
    login_handler-cycle plain_crypto users 0 60 (some (lit "t")) true (lit "alice") (lit "secret")
      fresh_store alice_cookie alice logs_in (omega arith)
