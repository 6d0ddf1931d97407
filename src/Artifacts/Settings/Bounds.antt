-- ===== src/Artifacts/Settings/Bounds.antt =====
-- The retention stays within its bounds, whatever the file holds and whatever is asked for.
use selenwright.Prelude.{
  ◌≡◌, Bool, true, false, List, [], ◌∷◌, Option, none, some, Str, ℤ, pos, ◌≤ℤ◌, arith, Option-cases,
  Bool-cases, inl, inr, is_empty, subst, sym, ◌⊎◌,
}
use selenwright.Artifacts.Settings.{
  HistorySettings, Place, SettingsFile, Store, SettingsError, HistoryRequest, PutBody, validate,
  persist, load_settings, update_settings, put_settings, history_settings_handler,
  parse_retention_days, availability, put_answer, settings_dir, not_available, not_written,
  bad_retention, RetentionDays, Unavailable, shows, gets, puts, other_method, invalid_json, fields,
  missing, unreadable, malformed, holds,
}

-- Between one day and a year.
abbrev pub IsBounded : HistorySettings → Type 0
IsBounded s = (pos 1 ≤ℤ s.retention_days) × (s.retention_days ≤ℤ pos 365)

validate-IsBounded : (s : HistorySettings) → validate s ≡ none → IsBounded s
unfolding validate
validate-IsBounded s h = ground arith

load_settings-IsBounded :
    (p : Place) (writes : Bool) (file : SettingsFile)
    → IsBounded (load_settings p writes file).0.settings
unfolding load_settings persist
load_settings-IsBounded p writes missing = ground arith
load_settings-IsBounded p writes unreadable = ground arith
load_settings-IsBounded p writes malformed = ground arith
load_settings-IsBounded p writes (holds loaded) = ground (arith, validate-IsBounded loaded)

availability-makes : (p : Place) → availability p ≡ none → p.makes settings_dir ≡ true
unfolding availability
availability-makes p h = ground (arith, h)

-- An update changes everything or nothing.
update_settings-cases :
    (p : Place) (writes : Bool) (next : HistorySettings) (st : Store)
    → ((validate next ≡ none)
        × (p.makes settings_dir ≡ true)
        × (update_settings p writes next st
            ≡ (record { settings = next; file = holds next }, none)))
      ⊎ ((e : SettingsError) × (update_settings p writes next st ≡ (st, some e)))
unfolding update_settings persist
update_settings-cases p writes next st = elim (Option-cases (validate next)) [
  | inr (e, bad) ↦ inr (e, ground (arith, bad))
  | inl valid ↦ elim (Option-cases (availability p)) [
    | inr (reason, off) ↦ inr (not_available reason, ground (arith, valid, off))
    | inl on ↦ elim (Bool-cases writes) [
      | inr failed ↦ inr (not_written, ground (arith, valid, on, failed))
      | inl written ↦ inl (valid, availability-makes p on, ground (arith, valid, on, written))
    ]
  ]
]

put_settings-parsed :
    (atoi : Str → Option ℤ) (p : Place) (writes on : Bool) (days : RetentionDays) (n : ℤ)
    (st : Store)
    → parse_retention_days atoi days ≡ some n
    → let (st', e) = update_settings p writes (record { enabled = on; retention_days = n }) st in
      put_settings atoi p writes (fields days (some on)) st
      ≡ (st', put_answer st' (availability p) e)
unfolding put_settings
put_settings-parsed atoi p writes on days n st h = ground (arith, h)

put_settings-unparsed :
    (atoi : Str → Option ℤ) (p : Place) (writes : Bool) (enabled : Option Bool)
    (days : RetentionDays) (st : Store)
    → parse_retention_days atoi days ≡ none
    → put_settings atoi p writes (fields days enabled) st ≡ (st, bad_retention)
unfolding put_settings
put_settings-unparsed atoi p writes enabled days st h = ground (arith, h)

put_settings-IsBounded :
    (atoi : Str → Option ℤ) (p : Place) (writes : Bool) (body : PutBody) (st : Store)
    → IsBounded st.settings
    → IsBounded (put_settings atoi p writes body st).0.settings
unfolding put_settings
put_settings-IsBounded atoi p writes invalid_json st h = h
put_settings-IsBounded atoi p writes (fields days none) st h =
    elim (Option-cases (parse_retention_days atoi days)) [
      | inl bad ↦ ground (arith, bad, h)
      | inr (n, parsed) ↦ ground (arith, parsed, h)
    ]
put_settings-IsBounded atoi p writes (fields days (some on)) st h =
    elim (Option-cases (parse_retention_days atoi days)) [
      | inl bad ↦ ground (arith, bad, h)
      | inr (n, parsed) ↦
          let next : HistorySettings = record { enabled = on; retention_days = n } in
          let put = put_settings-parsed atoi p writes on days n st parsed in
          subst (λ r. IsBounded r.0.settings) (sym put)
            (elim (update_settings-cases p writes next st) [
              | inl (valid, made, done) ↦
                  subst (λ r. IsBounded r.0.settings) (sym done) (validate-IsBounded next valid)
              | inr (e, kept) ↦ subst (λ r. IsBounded r.0.settings) (sym kept) h
            ])
    ]

handler-IsBounded :
    (atoi : Str → Option ℤ) (p : Place) (writes : Bool) (path : Str) (request : HistoryRequest)
    (st : Store)
    → IsBounded st.settings
    → IsBounded (history_settings_handler atoi p writes path request st).0.settings
unfolding history_settings_handler
handler-IsBounded atoi p writes path gets st h = ground (arith, h)
handler-IsBounded atoi p writes path other_method st h = ground (arith, h)
handler-IsBounded atoi p writes path (puts body) st h =
    ground (arith, h, put_settings-IsBounded atoi p writes body st h)

-- One request after the other, each with the success of its write.
abbrev pub serve : (Str → Option ℤ) → Place → List (Bool × Str × HistoryRequest) → Store → Store
serve atoi p [] st = st
serve atoi p ((writes, path, request) ∷ rest) st =
    serve atoi p rest (history_settings_handler atoi p writes path request st).0

serve-IsBounded :
    (atoi : Str → Option ℤ) (p : Place) (rs : List (Bool × Str × HistoryRequest)) (st : Store)
    → IsBounded st.settings
    → IsBounded (serve atoi p rs st).settings
serve-IsBounded atoi p [] st h = h
serve-IsBounded atoi p ((writes, path, request) ∷ rs) st h =
    serve-IsBounded atoi p rs (history_settings_handler atoi p writes path request st).0
      (handler-IsBounded atoi p writes path request st h)

-- From the start of a manager, whatever its file holds, and whatever requests reach the endpoint, with
-- whatever success of their writes, the retention stays between 1 and 365 days.
pub load_settings-serve :
    (atoi : Str → Option ℤ) (p : Place) (writes : Bool) (file : SettingsFile)
    (rs : List (Bool × Str × HistoryRequest))
    → IsBounded (serve atoi p rs (load_settings p writes file).0).settings
load_settings-serve atoi p writes file rs =
    serve-IsBounded atoi p rs (load_settings p writes file).0
      (load_settings-IsBounded p writes file)

-- A PUT that is answered with the settings keeps them: where the settings' path is set, they are in the
-- file, and a manager that starts from it has the same settings again, without an error.
pub put_settings-load :
    (atoi : Str → Option ℤ) (p : Place) (writes again : Bool) (days : RetentionDays) (on : Bool)
    (st : Store) (shown : HistorySettings) (off : Option Unavailable)
    → is_empty p.settings_path ≡ false
    → (put_settings atoi p writes (fields days (some on)) st).1 ≡ shows shown off
    → let st' = (put_settings atoi p writes (fields days (some on)) st).0 in
      (st'.settings ≡ shown) × (load_settings p again st'.file ≡ (st', none))
unfolding put_answer load_settings
put_settings-load atoi p writes again days on st shown off there e =
    let next : ℤ → HistorySettings = λ n. record { enabled = on; retention_days = n } in
    elim (Option-cases (parse_retention_days atoi days)) [
      | inl bad ↦
          absurd (ground (arith, e, put_settings-unparsed atoi p writes (some on) days st bad))
      | inr (n, parsed) ↦
          let put = put_settings-parsed atoi p writes on days n st parsed in
          elim (update_settings-cases p writes (next n) st) [
            | inr (failed, kept) ↦ absurd (ground (arith, e, put, kept))
            | inl (valid, made, done) ↦ ground (arith, e, put, done, valid, made, there)
          ]
    ]
