-- ===== src/Tests.antt =====
-- Concrete runs of the model, and the parameters that they need: a semaphore, hashes and a
-- network that behave as the model expects of those that the service uses.
pub mod Protection
pub mod Sessions
pub mod Service
pub mod Tokens
pub mod Paths
pub mod Catalog
pub mod Playwright
pub mod Discovery
pub mod Artifacts
pub mod Stack
pub mod Events
use selenwright.Prelude.{
  ℕ, zero, suc, ◌≡◌, refl, ◌≤◌, ◌<◌, Bool, true, false, List, [], ◌∷◌, Option, none, some, Str, lit,
  ltb, eqb, if◌then◌else◌, ◌==◌, ◌-◌, ◌+◌, arith, StrMap, pos, negsuc, ℤ, take,
}
use selenwright.Protect.Queue.{Semaphore, Queue, new, grant}
use selenwright.Protect.Token.{Crypto}
use selenwright.Protect.SourceTrust.{Network}
use selenwright.Session.Caps.{Caps, WireCaps, plain}

-- What is held, and the capacity.
abbrev pub Slots : Type 0
Slots = ℕ × ℕ

unfoldable pub take_slot : Slots → Option Slots
take_slot (h, c) = if ltb h c then some (suc h, c) else none

unfoldable pub give_slot : Slots → Option Slots
give_slot (zero, c) = none
give_slot (suc h, c) = some (h, c)

pub take_free :
    (w : Slots)
    → w.0 < w.1
    → (w' : Slots) × (take_slot w ≡ some w') × (w'.0 ≡ suc w.0) × (w'.1 ≡ w.1)
unfolding take_slot
take_free (h, c) free = ((suc h, c), ground arith, refl, refl)

pub take_full : (w : Slots) → w.1 ≤ w.0 → take_slot w ≡ none
unfolding take_slot
take_full (h, c) full = ground arith

pub give_held :
    (w : Slots) → 0 < w.0 → (w' : Slots) × (give_slot w ≡ some w') × (suc w'.0 ≡ w.0) × (w'.1 ≡ w.1)
unfolding give_slot
give_held (zero, c) held = absurd (omega arith)
give_held (suc h, c) held = ((h, c), refl, refl, refl)

pub give_empty : (w : Slots) → w.0 ≡ 0 → give_slot w ≡ none
unfolding give_slot
give_empty (zero, c) e = refl
give_empty (suc h, c) e = absurd (omega arith)

abbrev pub slots : Semaphore
slots = record {
  Weighted = Slots;
  new_weighted = λ n. (0, n);
  held = λ w. w.0;
  capacity = λ w. w.1;
  try_acquire = take_slot;
  release = give_slot;
  new-held = λ n. refl;
  new-capacity = λ n. refl;
  try_acquire_free = take_free;
  try_acquire_full = take_full;
  release_held = give_held;
  release_empty = give_empty;
}

-- Stand-ins for bcrypt and SHA-256 that leave the text as it is.
abbrev pub plain_crypto : Crypto
plain_crypto = record { compare = λ h p. h == p; sha256_hex = λ p. p }

abbrev pub no_network : Network
no_network = record {
  Cidr = Str;
  Ip = Str;
  Pool = Unit;
  split_host_port = λ a. none;
  parse_ip = λ a. some a;
  parse_cidr = λ a. some a;
  contains = λ c ip. c == ip;
  verify = λ pool leaf rest. true;
}

abbrev pub no_caps : Caps
no_caps = record {
  name = lit "chrome";
  device_name = [];
  version = [];
  w3c_version = [];
  platform = [];
  w3c_platform = [];
  w3c_device_name = [];
  screen_resolution = [];
  skin = [];
  vnc = false;
  video = false;
  log = false;
  video_name = [];
  video_screen_size = [];
  video_frame_rate = 0;
  video_codec = [];
  log_name = [];
  test_name = lit "login";
  time_zone = [];
  container_hostname = [];
  env = [];
  application_containers = [];
  additional_networks = [];
  hosts_entries = [];
  dns_servers = [];
  labels = (lit "team", lit "qa") ∷ [];
  session_timeout = [];
  s3_key_pattern = [];
}
