-- ===== src/Tests/Service.antt =====
-- Runs of the handlers.
use selenwright.Prelude.{
  ◌⊎◌, ◌+◌, Bool-cases, inl, inr, subst, false, ℕ, ◌≡◌, ◌↔◌, refl, true, List, [], ◌∷◌, Option,
  none, some, Str, lit, arith, pos, ◌+ℤ◌, contains_any, ok, ◌==◌, lookup, insert, delete, split,
  elem, equal_fold, if◌then◌else◌, has_prefix,
}
use selenwright.Tests.{slots, take_slot, plain_crypto, no_network, no_caps}
use selenwright.Protect.Queue.{accepted, try, check, protect, enter, grant, new}
use selenwright.Protect.Access.{Identity, session_access, extract_session_id}
use selenwright.Protect.Token.{TokenStore, Found}
use selenwright.Protect.Request.{Request}
use selenwright.Protect.SourceTrust.{source_trust_middleware}
use selenwright.Protect.Auth.{
  Authenticator, trusted_proxy, Stores, authenticate, trusted_proxy_identity, auth_middleware,
}
use selenwright.Session.{Session, is_playwright}
use selenwright.Session.Watchdog.{start, new_watchdog}
use selenwright.Session.Caps.{plain}
use selenwright.Handlers.App.{App, touch_watchdog}
use selenwright.Handlers.Attempts.{replied}
use selenwright.Handlers.Create.{
  Config, StartedService, Environment, parsed, identified, CreateEnd, panicked, session_id, create,
}
use selenwright.Handlers.Create.Settling.{create-Settles}
use selenwright.Handlers.Create.Choosing.{has_null, null_first, is_panicked}
use selenwright.Handlers.Lifecycle.{Accounts, Settles, held_after, AllWebDriver}
use selenwright.Handlers.Proxy.{
  forwarded, ended, aborted, target, proxy, proxy_session, vendor_prefix,
}
use selenwright.Handlers.Proxy.Committing.{leaves}
use selenwright.Handlers.Proxy.Ending.{IsPanic, TimerStopped, proxy-delete, proxy_panics_iff}
use selenwright.Handlers.History.{Reaches, begins, asks, empty_app, Reaches-Accounts}
use selenwright.Handlers.Routes.{
  open_paths, served, unauthenticated, hub_session, idle_delete, serve_session, gate_session_owner,
}
use selenwright.Handlers.Routes.Guarded.{idle_delete_rejected, hub_session_guarded}

abbrev pub session_of : Str → Session
session_of owner = record {
  quota = owner;
  owner_groups = [];
  caps = no_caps;
  url = (lit "10.0.0.2:4444", lit "/wd/hub");
  container = none;
  host_port = record { selenium = []; fileserver = []; clipboard = []; vnc = []; devtools = [] };
  origin = [];
  timeout = pos 60;
  watchdog = none;
  protocol = [];
  started = 0;
  artifact_history_enabled = false;
  downloads_dir = [];
}

-- Two sessions, and a third request that is starting one.
abbrev pub busy : App slots
busy = record {
  queue = record {
    disabled = false;
    limit = (3, 5);
    size = 5;
    used = pos 2;
    pending = pos 1;
    queued = pos 0;
  };
  sessions = (lit "s1", session_of (lit "alice")) ∷ (lit "s2", session_of (lit "bob")) ∷ [];
  enable_file_upload = true;
  containers = pos 2;
  uploads_removed = [];
}

pub distinct : lookup (lit "s1") ((lit "s2", session_of (lit "bob")) ∷ []) ≡ none
unfolding lookup ◌==◌
distinct = refl

busy-Accounts : Accounts slots 0 1 busy
unfolding lookup
busy-Accounts = record {
  balanced = record {
    is_used = refl;
    is_pending = refl;
    holds = refl;
    capacity = refl;
    within = omega arith;
  };
  nodup = (distinct, (refl, tt));
  contained = refl;
}

abbrev config : Config
config = record {
  caps_policy = [];
  max_timeout = pos 3600;
  timeout = pos 60;
  disable_docker = false;
  log_output_dir = [];
  save_all_logs = false;
  retry_count = 1;
}

abbrev service : StartedService
service = record {
  url = (lit "10.0.0.3:4444", []);
  container = none;
  host_port = record { selenium = []; fileserver = []; clipboard = []; vnc = []; devtools = [] };
  origin = [];
  downloads_dir = [];
}

abbrev environment : Environment
environment = record {
  merge = λ a b. a;
  merge_override = λ c e. c;
  parse_duration = λ s. none;
  video_temp_name = lit "selenwright1.mp4";
  log_temp_name = lit "selenwright1.log";
  history_enabled = false;
  find = λ c. some (some service);
}

abbrev alice : Identity
alice = record { user = lit "alice"; is_admin = false; groups = [] }

new_id : (id : Str) → session_id (identified (lit "s3")) ≡ ok id → lookup id busy.sessions ≡ none
unfolding session_id lookup ◌==◌
new_id id e =
    let h : lit "s3" ≡ id = ground arith in subst (λ i. lookup i busy.sessions ≡ none) h refl

create-Settles_example :
    (app' : App slots) × (end : CreateEnd) × (create slots config environment alice
        (lit "alice")
        0
        (pos 0)
        (parsed (plain no_caps) (plain no_caps) [])
        (plain no_caps)
        (λ i. replied 200)
        (identified (lit "s3"))
        9
        busy
      ≡ some (app', end))
    × Accounts slots 0 (held_after end 0) app'
    × Settles slots busy app' end
    × ((end ≡ panicked) ⊎ (null_first (parsed (plain no_caps) (plain no_caps) []) ≡ false))
    × ((is_panicked end ≡ false) ⊎ (has_null (parsed (plain no_caps) (plain no_caps) []) ≡ true))
create-Settles_example =
    create-Settles slots config environment alice (lit "alice") 0 (pos 0)
      (parsed (plain no_caps) (plain no_caps) []) (plain no_caps) (λ i. replied 200)
      (identified (lit "s3")) 9 0 0 busy (omega arith) new_id busy-Accounts

found_s1 : lookup (lit "s1") busy.sessions ≡ some (session_of (lit "alice"))
unfolding lookup ◌==◌
found_s1 = refl

abbrev s1_path : Str
s1_path = lit "/session/s1"

abbrev s1_parts : List Str
s1_parts = [] ∷ lit "session" ∷ lit "s1" ∷ []

s1_splits : split b'/' s1_path ≡ s1_parts
unfolding split
s1_splits = refl

-- The session s1 with a timer that runs.
abbrev timed_session : Session
timed_session = record (session_of (lit "alice")) {
  watchdog = some (start (pos 0) (new_watchdog (pos 60)));
}

abbrev timed : App slots
timed = record busy {
  sessions = (lit "s1", timed_session) ∷ (lit "s2", session_of (lit "bob")) ∷ [];
}

timed-Accounts : Accounts slots 0 1 timed
unfolding lookup
timed-Accounts = record {
  balanced = busy-Accounts.balanced;
  nodup = (distinct, (refl, tt));
  contained = refl;
}

found_timed : lookup (lit "s1") timed.sessions ≡ some timed_session
unfolding lookup ◌==◌
found_timed = refl

busy-AllWebDriver : AllWebDriver busy.sessions
unfolding lookup
busy-AllWebDriver = λ id sess found. elim (Bool-cases (lit "s1" == id)) [
  | inl first ↦
      let it : session_of (lit "alice") ≡ sess = ground (arith, found, first) in
      subst (λ x. is_playwright x ≡ false) it (unfold ◌==◌ in refl)
  | inr later ↦ elim (Bool-cases (lit "s2" == id)) [
    | inl second ↦
        let it : session_of (lit "bob") ≡ sess = ground (arith, found, later, second) in
        subst (λ x. is_playwright x ≡ false) it (unfold ◌==◌ in refl)
    | inr gone ↦ absurd (ground (arith, found, later, gone))
  ]
]

proxy-delete_example :
    (app' : App slots) × (sess' : Session) × (proxy slots (pos 5) false true s1_path timed
      ≡ some (app', aborted (ended sess' (target true s1_parts s1_path (lit "s1") sess'))))
    × TimerStopped timed_session sess'
    × Accounts slots (leaves false 0) 1 app'
    × (app'.sessions ≡ delete (lit "s1") timed.sessions)
proxy-delete_example =
    proxy-delete slots 0 1 (pos 5) false s1_path [] (lit "session") (lit "s1") timed_session timed
      timed-Accounts s1_splits found_timed (unfold ◌==◌ in refl)

proxy_panics_iff_example :
    IsPanic (proxy slots (pos 5) true false (lit "/session/s1/aerokube") busy) ↔ (
      (true ≡ false)
      ⊎ ((root : Str) × (prefix : Str) × (id : Str) × (sess : Session) × (split b'/'
              (lit "/session/s1/aerokube")
            ≡ root ∷ prefix ∷ id ∷ vendor_prefix ∷ [])
          × (lookup id busy.sessions ≡ some sess)))
proxy_panics_iff_example =
    proxy_panics_iff slots 0 1 (pos 5) true false (lit "/session/s1/aerokube") busy busy-Accounts
      busy-AllWebDriver

-- The first request is let through.
abbrev first_asks : App slots
first_asks = record (empty_app slots 5 false true) {
  queue = record {
    disabled = false;
    limit = (1, 5);
    size = 5;
    used = pos 0;
    pending = pos 1;
    queued = pos 0;
  };
}

let_through :
    try slots (empty_app slots 5 false true).queue false true ≡ some (accepted first_asks.queue)
unfolding try check protect enter grant new take_slot ◌+ℤ◌
let_through = refl

first_asks-Reaches : Reaches slots 0 1 first_asks
first_asks-Reaches =
    asks 0 0 (empty_app slots 5 false true) false true (accepted first_asks.queue)
      (begins 5 false true) let_through

Reaches-Accounts_example :
    (leaked : ℕ) × Accounts slots leaked (1 + 0) first_asks × AllWebDriver first_asks.sessions
Reaches-Accounts_example = Reaches-Accounts slots 0 1 first_asks first_asks-Reaches

abbrev no_stores : Stores
no_stores = record {
  tokens = record { tokens = []; by_prefix = []; pending_touch = []; disk = [] };
  sessions = record { sessions = []; ttl = 60; stop_closed = false };
}

abbrev nobody : TokenStore → Str → Option Found
nobody s tok = none

abbrev proxied : Authenticator
proxied = trusted_proxy (lit "X-Forwarded-User") [] []

idle_delete_rejected_example :
    hub_session slots no_network plain_crypto nobody 5
      (pos 5)
      true
      none
      proxied
      (idle_delete (lit "agent") (lit "s1"))
      no_stores
      busy
    ≡ (no_stores, unauthenticated [])
unfolding source_trust_middleware elem ◌==◌ idle_delete
idle_delete_rejected_example =
    idle_delete_rejected slots no_network plain_crypto nobody 5 (pos 5) true none proxied
      (lit "agent") (lit "s1") no_stores busy (unfold equal_fold ◌==◌ in (refl, refl))

abbrev alice_request : Request
alice_request = record {
  method = lit "GET";
  path = lit "/wd/hub/session/s1/url";
  header = λ name. if name == lit "X-Forwarded-User" then lit "alice" else [];
  query_has_token = false;
  query_token = [];
  cookie = λ name. none;
  basic_auth = none;
  remote_addr = lit "10.0.0.1:5";
  verified_chains = none;
}

abbrev busy' : App slots
busy' = record busy { sessions = insert (lit "s1") (session_of (lit "alice")) busy.sessions }

abbrev url_parts : List Str
url_parts = [] ∷ lit "session" ∷ lit "s1" ∷ lit "url" ∷ []

alice_served :
    hub_session slots no_network plain_crypto nobody 5
      (pos 5)
      true
      none
      proxied
      alice_request
      no_stores
      busy
    ≡ (
      no_stores,
      served busy' (
          forwarded
            (target true url_parts (lit "/session/s1/url") (lit "s1") (session_of (lit "alice")))),
    )
unfolding hub_session serve_session gate_session_owner proxy proxy_session source_trust_middleware
    auth_middleware authenticate trusted_proxy_identity touch_watchdog session_access
    extract_session_id elem ◌==◌ lookup insert split has_prefix contains_any
alice_served = refl

hub_session_guarded_example :
    (source_trust_middleware no_network open_paths none alice_request ≡ true)
    × ((identity : Identity) × (authenticate plain_crypto nobody 5 proxied alice_request no_stores
          ≡ (no_stores, ok identity))
        × (session_access identity (lit "alice") [] ≡ true))
hub_session_guarded_example =
    hub_session_guarded slots no_network plain_crypto nobody 5 (pos 5) true none proxied
      alice_request no_stores no_stores busy busy'
      (forwarded
        (target true url_parts (lit "/session/s1/url") (lit "s1") (session_of (lit "alice"))))
      (lit "s1") (session_of (lit "alice")) (unfold elem ◌==◌ in refl)
      (unfold extract_session_id split has_prefix in refl) refl found_s1 alice_served
