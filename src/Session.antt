-- ===== src/Session.antt =====
-- session/session.go: sessions and the session map.
pub mod Caps
pub mod Watchdog
pub mod Sanitize
pub mod LogSink
use selenwright.Prelude.{
  lit, ◌==◌, ℕ, Bool, List, [], ◌∷◌, Option, none, some, Str, StrMap, lookup, insert, delete,
  length, if◌then◌else◌, is_empty, ℤ,
}

pub record Container : Type 0 where
  pub id : Str
  pub ip_address : Str
  pub ports : StrMap Str

pub record HostPort : Type 0 where
  pub selenium : Str
  pub fileserver : Str
  pub clipboard : Str
  pub vnc : Str
  pub devtools : Str

-- `ProtocolPlaywright`; the zero value is a WebDriver session too.
abbrev pub protocol_playwright : Str
protocol_playwright = lit "playwright"

-- `url` is the host and the path of URL. The fields Cancel, LogSink and Lock are left out: what
-- Cancel does is a step of the handlers.
pub record Session : Type 0 where
  pub quota : Str
  pub owner_groups : List Str
  pub caps : Caps.Caps
  pub url : Str × Str
  pub container : Option Container
  pub host_port : HostPort
  pub origin : Str
  pub timeout : ℤ
  pub watchdog : Option Watchdog.Watchdog
  pub protocol : Str
  pub started : ℕ
  pub artifact_history_enabled : Bool
  pub downloads_dir : Str

abbrev pub is_playwright : Session → Bool
is_playwright sess = sess.protocol == protocol_playwright

-- `Map`; its methods hold its lock throughout, so each is one step.
abbrev pub SessionMap : Type 0
SessionMap = StrMap Session

abbrev pub new_map : SessionMap
new_map = []

abbrev pub get : SessionMap → Str → Option Session
get m k = lookup k m

abbrev pub put : SessionMap → Str → Session → SessionMap
put m k v = insert k v m

abbrev pub remove : SessionMap → Str → SessionMap
remove m k = delete k m

-- `Each`, folding the callback's state along the iteration.
unfoldable pub each {ℓ} : {S : Type ℓ} → SessionMap → (S → Str → Session → S) → S → S
each [] fn s = s
each ((k, v) ∷ m) fn s = each m fn (fn s k v)

abbrev pub len : SessionMap → ℕ
len m = length m
