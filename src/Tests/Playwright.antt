-- ===== src/Tests/Playwright.antt =====
-- Runs of the Playwright handlers.
use selenwright.Prelude.{
  ℕ, ◌≡◌, ◌≤◌, refl, Bool, true, false, List, [], ◌∷◌, ◌++◌, Option, none, some, Str, lit, lookup,
  length, pos, arith, subst, ◌==◌, ltb, eqb, if◌then◌else◌, all, Result,
}
use selenwright.Tests.{slots}
use selenwright.Tests.Service.{busy, distinct, session_of}
use selenwright.Session.{protocol_playwright, Session}
use selenwright.Session.LogSink.{new_log_sink}
use selenwright.Handlers.App.{App}
use selenwright.Handlers.Lifecycle.{Accounts}
use selenwright.Playwright.Url.{
  parse_playwright_path, playwright_prefix, no_slash, parse_playwright_path-print,
}
use selenwright.Playwright.SessionId.{
  SessionIdError, IsRandom, ends_at, Resolved, hex_encode, resolve_playwright_session_id,
  resolve_playwright_session_id-Resolved,
}
use selenwright.Playwright.Frames.{Params, extract_playwright_params}
use selenwright.Playwright.Frames.Bounds.{unbroken, extract_playwright_params-fits}
use selenwright.Playwright.Starting.{
  World, Settings, Environment, Request, PlaywrightService, playwright,
}
use selenwright.Playwright.Settling.{Settles, playwright-Settles}
use selenwright.Playwright.Ending.{Logs, cleanups}
use selenwright.Playwright.Once.{Ended, cleanups_once}

-- A stand-in for percent-encoding, of the slash and of the percent sign alone.
abbrev escape : Str → Str
escape [] = []
escape (c ∷ s) =
    let rest = escape s in
    if eqb c b'/' then b'%' ∷ b'2' ∷ rest else if eqb c b'%' then b'%' ∷ b'5' ∷ rest else c ∷ rest

abbrev cons : ℕ → Option Str → Option Str
cons c none = none
cons c (some s) = some (c ∷ s)

abbrev unescape_from : Bool → Str → Option Str
unescape_from false [] = some []
unescape_from true [] = none
unescape_from false (c ∷ s) =
    if eqb c b'%' then unescape_from true s else cons c (unescape_from false s)
unescape_from true (c ∷ s) = cons (if eqb c b'2' then b'/' else b'%') (unescape_from false s)

escape_undone : (s : Str) → unescape_from false (escape s) ≡ some s
escape_undone [] = refl
escape_undone (c ∷ s) = ground (arith, escape_undone s)

escape_plain : (s : Str) → no_slash (escape s) ≡ true
escape_plain [] = refl
escape_plain (c ∷ s) = ground (arith, escape_plain s)

parse_playwright_path-print_example :
    parse_playwright_path
      (unescape_from false)
      (playwright_prefix ++ escape (lit "a/b") ++ b'/' ∷ escape (lit "1.49"))
    ≡ some (lit "a/b", lit "1.49")
parse_playwright_path-print_example =
    parse_playwright_path-print (unescape_from false) escape (lit "a/b") (lit "1.49") escape_undone
      escape_plain refl refl refl refl

abbrev sixteen : List ℕ
sixteen = 1 ∷ 35 ∷ 69 ∷ 103 ∷ 137 ∷ 171 ∷ 205 ∷ 239 ∷ 0 ∷ 0 ∷ 0 ∷ 0 ∷ 0 ∷ 0 ∷ 0 ∷ 0 ∷ []

abbrev random : ℕ → Option (List ℕ)
random k = some sixteen

random-IsRandom : IsRandom random
random-IsRandom k bs e =
    let same : sixteen ≡ bs = ground (arith, e) in
    subst (λ b. (length b ≡ 16) × (all (λ c. ltb c 256) b ≡ true)) same (refl, refl)

abbrev alice : Session
alice = record (session_of (lit "alice")) { protocol = protocol_playwright }

-- Two sessions, the first a Playwright session, and a third request that is starting one.
abbrev pw_app : App slots
pw_app = record busy { sessions = (lit "s1", alice) ∷ (lit "s2", session_of (lit "bob")) ∷ [] }

abbrev world : World slots
world = record {
  app = pw_app;
  upstreams = pos 1;
  cleaned = (lit "s1", false) ∷ [];
  sinks = (lit "s1", new_log_sink) ∷ [];
  files = [];
  events = [];
  reasons = [];
}

world-Accounts : Accounts slots 0 1 world.app
unfolding lookup
world-Accounts = record {
  balanced = record {
    is_used = refl;
    is_pending = refl;
    holds = refl;
    capacity = refl;
    within = omega arith;
  };
  nodup = (distinct, (refl, tt));
  contained = refl;
}

found_s1 : lookup (lit "s1") world.app.sessions ≡ some alice
unfolding lookup ◌==◌
found_s1 = refl

unspent_s1 : lookup (lit "s1") world.cleaned ≡ some false
unfolding lookup ◌==◌
unspent_s1 = refl

abbrev request : Request
request = record {
  encoded_path = lit "/playwright/chromium/1.49.0";
  is_web_socket_upgrade = true;
  query = λ key. [];
  session_header = [];
  identity = record { user = lit "carol"; is_admin = false; groups = [] };
  user = lit "unknown";
}

abbrev settings : Settings
settings = record {
  default_enable_vnc = false;
  caps_policy = lit "strict";
  log_output_dir = [];
  save_all_logs = false;
  timeout = pos 60;
}

abbrev service : PlaywrightService
service = record {
  url = some (lit "10.0.0.7:3000", lit "/");
  container = none;
  host_port = record { selenium = []; fileserver = []; clipboard = []; vnc = []; devtools = [] };
  origin = [];
  downloads_dir = [];
}

abbrev environment : Environment
environment = record {
  unescape = λ s. some s;
  history_enabled = false;
  log_temp_name = [];
  find = λ c. some (some service);
  dials = true;
  random = random;
  upgrades = true;
  started = 0;
  now = pos 0;
}

first_ends : ends_at random world.app.sessions 0 ≡ true
unfolding hex_encode lookup ◌==◌
first_ends = refl

playwright-Settles_example :
    Settles slots 0 0 world (playwright slots settings environment request 9 world)
playwright-Settles_example =
    playwright-Settles slots settings environment request 9 0 0 0 world world-Accounts
      random-IsRandom first_ends (omega arith)

abbrev logs : Logs
logs = record { log_output_dir = lit "/var/log"; ggr_sum = []; appends = true; renames = true }

cleanups_once_example :
    (w' : World slots) × (cleanups slots logs
        (lit "client" ∷ lit "timeout" ∷ lit "shutdown" ∷ [])
        (lit "s1")
        alice
        world
      ≡ some w')
    × Ended slots 0 1 (lit "client") (lit "s1") world w'
cleanups_once_example =
    cleanups_once slots 0 1 logs (lit "client") (lit "timeout" ∷ lit "shutdown" ∷ []) (lit "s1")
      alice world world-Accounts found_s1 unspent_s1

resolve_playwright_session_id-Resolved_example :
    (r : Result SessionIdError Str) × (resolve_playwright_session_id 3 random
        (lit " grid-7_a ")
        world.app.sessions
      ≡ some r)
    × Resolved world.app.sessions r
resolve_playwright_session_id-Resolved_example =
    resolve_playwright_session_id-Resolved 3 random (lit " grid-7_a ") 0 world.app.sessions
      random-IsRandom first_ends (omega arith)

abbrev params : Params
params = (lit "url", some (lit "https://example.org/  a")) ∷ (lit "key", none) ∷ []

extract_playwright_params-fits_example :
    (length (extract_playwright_params params) ≤ 1018)
    × (unbroken (extract_playwright_params params) ≡ true)
extract_playwright_params-fits_example = extract_playwright_params-fits params
