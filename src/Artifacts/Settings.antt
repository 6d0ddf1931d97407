-- ===== src/Artifacts/Settings.antt =====
-- artifact_history.go: the settings, the file that they are in, and their endpoint.
pub mod Bounds
use selenwright.Prelude.{
  ℕ, Bool, true, false, List, [], ◌∷◌, Option, none, some, Str, lit, ◌==◌, is_empty, not,
  trim_space, ◌||◌, if◌then◌else◌, ℤ, pos, ltb_ℤ, Result, ok, err,
}

abbrev pub default_retention_days : ℤ
default_retention_days = pos 7

abbrev pub max_retention_days : ℤ
max_retention_days = pos 365

abbrev pub min_retention_days : ℤ
min_retention_days = pos 1

-- `artifactHistorySettings`
pub record HistorySettings : Type 0 where
  pub enabled : Bool
  pub retention_days : ℤ

abbrev pub defaults : HistorySettings
defaults = record { enabled = false; retention_days = default_retention_days }

pub data Unavailable : Type 0 where
  needs_docker needs_log_dir settings_dir_failed artifacts_dir_failed : Unavailable
  manifests_dir_failed downloads_dir_failed : Unavailable

-- filepath.Dir of the settings' path, and the directories of the artifacts.
pub data Directory : Type 0 where
  settings_dir root_dir manifests_dir downloads_dir : Directory

-- The manager's configuration, and whether each directory can be made.
pub record Place : Type 0 where
  pub settings_path : Str
  pub root_dir : Str
  pub log_dir : Str
  pub video_dir : Str
  pub docker_mode : Bool
  pub has_client : Bool
  pub makes : Directory → Bool

-- Availability; `none` is that it is available.
unfoldable pub availability : Place → Option Unavailable
availability p =
    if not p.docker_mode || not p.has_client
    then some needs_docker
    else if is_empty p.log_dir
    then some needs_log_dir
    else if not (p.makes settings_dir)
    then some settings_dir_failed
    else if not (p.makes root_dir)
    then some artifacts_dir_failed
    else if not (p.makes manifests_dir)
    then some manifests_dir_failed
    else if not (p.makes downloads_dir)
    then some downloads_dir_failed
    else none

-- What the settings' file holds.
pub data SettingsFile : Type 0 where
  missing unreadable malformed : SettingsFile
  holds : HistorySettings → SettingsFile

pub record Store : Type 0 where
  pub settings : HistorySettings
  pub file : SettingsFile

pub data SettingsError : Type 0 where
  out_of_range path_empty not_prepared not_readable not_parsed not_written : SettingsError
  not_available : Unavailable → SettingsError

unfoldable pub validate : HistorySettings → Option SettingsError
validate s =
    if ltb_ℤ s.retention_days min_retention_days || ltb_ℤ max_retention_days s.retention_days
    then some out_of_range
    else none

-- persistSettings, which replaces the file as a whole or leaves it.
unfoldable pub persist : Bool → HistorySettings → Store → Store × Option SettingsError
persist writes s st =
    if writes then (record st { file = holds s }, none) else (st, some not_written)

-- loadSettings, by which a manager starts.
unfoldable pub load_settings : Place → Bool → SettingsFile → Store × Option SettingsError
unfolding validate persist
load_settings p writes file =
    let fresh : Store = record { settings = defaults; file = file } in
    if is_empty p.settings_path
    then (fresh, some path_empty)
    else if not (p.makes settings_dir)
    then (fresh, some not_prepared)
    else (elim file [
      | missing ↦ persist writes defaults fresh
      | unreadable ↦ (fresh, some not_readable)
      | malformed ↦ (fresh, some not_parsed)
      | holds loaded ↦ elim (validate loaded) [
        | some e ↦ (fresh, some e)
        | none ↦ (record fresh { settings = loaded }, none)
      ]
    ])

unfoldable pub update_settings :
    Place → Bool → HistorySettings → Store → Store × Option SettingsError
unfolding validate persist availability
update_settings p writes next st = elim (validate next) [
  | some e ↦ (st, some e)
  | none ↦ elim (availability p) [
    | some reason ↦ (st, some (not_available reason))
    | none ↦
        let (st', e) = persist writes next st in
        elim e [ some failed ↦ (st', some failed) | none ↦ (record st' { settings = next }, none) ]
  ]
]

unfoldable pub is_enabled_for_new_sessions : Place → Store → Bool
unfolding availability
is_enabled_for_new_sessions p st = elim (availability p) [
  | some reason ↦ false
  | none ↦ st.settings.enabled
]

-- A JSON value of the field retentionDays: a number that is an `int` or not, a text, or another.
pub data RetentionDays : Type 0 where
  whole : ℤ → RetentionDays
  fraction : RetentionDays
  text : Str → RetentionDays
  other : RetentionDays

-- `atoi` is strconv.Atoi.
unfoldable pub parse_retention_days : (Str → Option ℤ) → RetentionDays → Option ℤ
parse_retention_days atoi (whole n) = some n
parse_retention_days atoi fraction = none
parse_retention_days atoi (text s) = atoi (trim_space s)
parse_retention_days atoi other = none

-- The body of a PUT: its two fields, `none` where `enabled` is no Boolean, or no JSON.
pub data PutBody : Type 0 where
  invalid_json : PutBody
  fields : RetentionDays → Option Bool → PutBody

pub data HistoryRequest : Type 0 where
  gets : HistoryRequest
  puts : PutBody → HistoryRequest
  other_method : HistoryRequest

-- The answers of the endpoint: the settings with whether they are available, or a message.
pub data HistoryAnswer : Type 0 where
  shows : HistorySettings → Option Unavailable → HistoryAnswer
  conflict : HistorySettings → Unavailable → HistoryAnswer
  bad_request : SettingsError → HistoryAnswer
  bad_body bad_retention bad_enabled method_not_allowed unknown_path : HistoryAnswer

-- The answer to a PUT once UpdateSettings has returned.
unfoldable pub put_answer : Store → Option Unavailable → Option SettingsError → HistoryAnswer
put_answer st off none = shows st.settings off
put_answer st off (some (not_available reason)) = conflict st.settings reason
put_answer st off (some out_of_range) = bad_request out_of_range
put_answer st off (some path_empty) = bad_request path_empty
put_answer st off (some not_prepared) = bad_request not_prepared
put_answer st off (some not_readable) = bad_request not_readable
put_answer st off (some not_parsed) = bad_request not_parsed
put_answer st off (some not_written) = bad_request not_written

unfoldable pub put_settings :
    (Str → Option ℤ) → Place → Bool → PutBody → Store → Store × HistoryAnswer
unfolding parse_retention_days update_settings put_answer
put_settings atoi p writes invalid_json st = (st, bad_body)
put_settings atoi p writes (fields days enabled) st = elim (parse_retention_days atoi days) [
  | none ↦ (st, bad_retention)
  | some n ↦ elim enabled [
    | none ↦ (st, bad_enabled)
    | some on ↦
        let (st', e) = update_settings p writes (record { enabled = on; retention_days = n }) st in
        (st', put_answer st' (availability p) e)
  ]
]

abbrev history_path : Str
history_path = lit "/history/settings"

-- historySettingsHandler.
unfoldable pub history_settings_handler :
    (Str → Option ℤ) → Place → Bool → Str → HistoryRequest → Store → Store × HistoryAnswer
unfolding put_settings availability
history_settings_handler atoi p writes path request st =
    if path == history_path || path == lit "/history/settings/"
    then (elim request [
      | gets ↦ (st, shows st.settings (availability p))
      | puts body ↦ put_settings atoi p writes body st
      | other_method ↦ (st, method_not_allowed)
    ])
    else (st, unknown_path)
