-- ===== src/Session/Sanitize.antt =====
-- session/sanitize.go: what a client's capabilities may hold. The regular expressions are the
-- tests that they stand for.
pub mod Allowed
use selenwright.Prelude.{
  ℕ, Bool, true, false, List, [], ◌∷◌, ◌++◌, reverse, Str, StrMap, lit, ◌==◌, is_empty, length,
  take, all, not, contains_any, split, Result, ok, err, reject, ◌>>=◌, ◌>>◌, leb, ltb, eqb, ◌&&◌,
  ◌||◌, if◌then◌else◌, slash, dot,
}
use selenwright.Session.Caps.{Caps}

abbrev pub policy_strict : Str
policy_strict = lit "strict"

abbrev pub label_max_len : ℕ
label_max_len = 128

abbrev is_alnum : ℕ → Bool
is_alnum c = leb b'a' c && leb c b'z' || leb b'A' c && leb c b'Z' || leb b'0' c && leb c b'9'

-- ^[a-zA-Z0-9][a-zA-Z0-9-]{0,62}$
pub hostname_re : Str → Bool
hostname_re [] = false
hostname_re (c ∷ s) = is_alnum c && all (λ d. is_alnum d || eqb d b'-') s && leb (length s) 62

-- ^[a-zA-Z0-9._-]{1,128}$
pub file_name_re : Str → Bool
file_name_re s =
    all (λ c. is_alnum c || eqb c b'.' || eqb c b'_' || eqb c b'-') s
    && leb 1 (length s)
    && leb (length s) 128

-- ^[\x20-\x7E]{0,128}$
unfoldable pub label_re : Str → Bool
label_re s = all (λ c. leb 0x20 c && leb c 0x7e) s && leb (length s) 128

-- filepath.Base: the last element of the path, without trailing slashes.
abbrev strip_slashes : Str → Str
strip_slashes [] = []
strip_slashes (c ∷ s) = if eqb c b'/' then strip_slashes s else c ∷ s

abbrev until_slash : Str → Str
until_slash [] = []
until_slash (c ∷ s) = if eqb c b'/' then [] else c ∷ until_slash s

pub base : Str → Str
base path =
    if is_empty path
    then dot
    else let stripped = strip_slashes (reverse path) in
      if is_empty stripped then slash else reverse (until_slash stripped)

pub data SanitizeError : Type 0 where
  env_not_allowed dns_not_allowed hosts_not_allowed networks_not_allowed : SanitizeError
  containers_not_allowed bad_hostname bad_name bad_label_key bad_label bad_video_name :
      SanitizeError
  bad_log_name bad_s3_key_pattern : SanitizeError

abbrev given {ℓ} : {A : Type ℓ} → List A → Bool
given xs = not (is_empty xs)

-- The checks that the strict policy makes of clients who are not admins.
unfoldable pub check_privileges : Caps → Result SanitizeError (Unit {0})
check_privileges c = do
  reject (given c.env) env_not_allowed
  reject (given c.dns_servers) dns_not_allowed
  reject (given c.hosts_entries) hosts_not_allowed
  reject (given c.additional_networks) networks_not_allowed
  reject (given c.application_containers) containers_not_allowed

-- Texts longer than a label may be are cut.
unfoldable pub cut_at : ℕ → Str → Str
cut_at n s = if ltb n (length s) then take n s else s

unfoldable pub cut : Str → Str
cut s = cut_at label_max_len s

unfoldable pub check_labels : StrMap Str → Result SanitizeError (StrMap Str)
unfolding cut
check_labels [] = ok []
check_labels ((k, v) ∷ m) =
    if label_re k
    then (if label_re (cut v)
        then (elim (check_labels m) [ err e ↦ err e | ok m' ↦ ok ((k, cut v) ∷ m') ])
        else err bad_label)
    else err bad_label_key

unfoldable pub bad_file_name : Str → Bool
bad_file_name s = given s && (not (base s == s) || not (file_name_re (base s)))

-- Sanitize for capabilities that are not nil: the capabilities as it leaves them.
unfoldable pub sanitize : Caps → Str → Bool → Result SanitizeError Caps
sanitize c policy is_admin = do
  if (is_empty policy || policy == policy_strict) && not is_admin then check_privileges c else ok tt
  reject (given c.container_hostname && not (hostname_re c.container_hostname)) bad_hostname
  reject (given c.test_name && not (label_re (cut c.test_name))) bad_name
  labels ← check_labels c.labels
  reject (bad_file_name c.video_name) bad_video_name
  reject (bad_file_name c.log_name) bad_log_name
  reject (contains_any c.s3_key_pattern (13 ∷ 10 ∷ [])) bad_s3_key_pattern
  ok (record c { test_name = cut c.test_name; labels = labels })
