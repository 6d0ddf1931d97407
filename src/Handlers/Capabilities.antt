-- ===== src/Handlers/Capabilities.antt =====
-- The capabilities that selenwright.go itself reads: screen and video sizes, the timeout, logs.
pub mod Sizes
use selenwright.Prelude.{
  ℕ, Bool, true, false, List, [], ◌∷◌, ◌++◌, Option, none, some, Str, lit, ◌==◌, is_empty, all, not,
  split, leb, ◌&&◌, ◌||◌, if◌then◌else◌, ℤ, leb_ℤ,
}
use selenwright.Session.Caps.{Caps}

abbrev pub digits : Str → Bool
digits s = not (is_empty s) && all (λ c. leb b'0' c && leb c b'9') s

short_parts : List Str → Bool
short_parts [] = false
short_parts (w ∷ []) = false
short_parts (w ∷ h ∷ []) = digits w && digits h
short_parts (w ∷ h ∷ d ∷ rest) = false

-- ^[0-9]+x[0-9]+$
unfoldable pub short_format : Str → Bool
unfolding short_parts
short_format s = short_parts (split b'x' s)

full_parts : List Str → Option Str
full_parts [] = none
full_parts (w ∷ []) = none
full_parts (w ∷ h ∷ []) = none
full_parts (w ∷ h ∷ d ∷ []) =
    if digits w && digits h && (d == lit "8" || d == lit "16" || d == lit "24")
    then some (w ++ b'x' ∷ h)
    else none
full_parts (w ∷ h ∷ d ∷ e ∷ rest) = none

-- ^([0-9]+x[0-9]+)x(8|16|24)$, with what its first group matches.
unfoldable pub full_format : Str → Option Str
unfolding full_parts
full_format s = full_parts (split b'x' s)

abbrev pub default_resolution : Str
default_resolution = lit "1920x1080x24"

unfoldable pub get_screen_resolution : Str → Option Str
get_screen_resolution input =
    if is_empty input then some default_resolution else (elim (full_format input) [
      | some size ↦ some input
      | none ↦ if short_format input then some (input ++ lit "x24") else none
    ])

-- The outer `none` is shortenScreenResolution indexing a match that failed, which panics; the
-- inner one is the error.
pub get_video_screen_size : Str → Str → Option (Option Str)
get_video_screen_size video_screen_size screen_resolution =
    if is_empty video_screen_size
    then (elim (full_format screen_resolution) [ none ↦ none | some size ↦ some (some size) ])
    else if short_format video_screen_size
    then some (some video_screen_size)
    else some none

-- `parse` is time.ParseDuration; `max_timeout` is app.maxTimeout.
pub get_session_timeout : (Str → Option ℤ) → Str → ℤ → ℤ → Option ℤ
get_session_timeout parse session_timeout max_timeout default_timeout =
    if is_empty session_timeout then some default_timeout else (elim (parse session_timeout) [
      | none ↦ none
      | some st ↦ some (if leb_ℤ st max_timeout then st else max_timeout)
    ])

-- `temp_name` is the name that getTemporaryFileName makes up.
pub configure_log_capture : Str → Bool → Str → Bool → Caps → Caps
configure_log_capture log_output_dir save_all_logs temp_name history_enabled c =
    if is_empty log_output_dir
    then c
    else if save_all_logs || c.log || history_enabled
    then record c { log_name = temp_name; log = true }
    else c
