-- ===== src/Tests/Artifacts.antt =====
-- Runs of the artifact history.
use selenwright.Prelude.{
  ◌≡◌, refl, Bool, true, false, List, [], ◌∷◌, ◌++◌, Option, none, some, Str, lit, ℤ, pos, ◌*◌,
}
use selenwright.Artifacts.Settings.{
  HistorySettings, Place, Store, missing, HistoryRequest, puts, fields, whole, shows, put_settings,
  load_settings, parse_retention_days, update_settings, put_answer, validate, persist, availability,
  defaults,
}
use selenwright.Artifacts.Settings.Bounds.{IsBounded, serve, load_settings-serve, put_settings-load}
use selenwright.Artifacts.Manifests.{Manifest, History, day}

abbrev no_atoi : Str → Option ℤ
no_atoi s = none

abbrev place : Place
place = record {
  settings_path = lit "/etc/history.json";
  root_dir = lit "/artifacts";
  log_dir = lit "/logs";
  video_dir = [];
  docker_mode = true;
  has_client = true;
  makes = λ d. true;
}

abbrev history_path : Str
history_path = lit "/history/settings"

abbrev two_puts : List (Bool × Str × HistoryRequest)
two_puts =
    (true, history_path, puts (fields (whole (pos 30)) (some true)))
    ∷ (true, history_path, puts (fields (whole (pos 366)) (some true)))
    ∷ []

load_settings-serve_example :
    IsBounded (serve no_atoi place two_puts (load_settings place true missing).0).settings
load_settings-serve_example = load_settings-serve no_atoi place true missing two_puts

abbrev thirty_days : HistorySettings
thirty_days = record { enabled = true; retention_days = pos 30 }

abbrev default_store : Store
default_store = record { settings = defaults; file = missing }

put_shows :
    (put_settings no_atoi place true (fields (whole (pos 30)) (some true)) default_store).1
    ≡ shows thirty_days none
unfolding put_settings parse_retention_days update_settings put_answer validate persist availability
put_shows = refl

put_settings-load_example :
    let st =
      (put_settings no_atoi place true (fields (whole (pos 30)) (some true)) default_store).0 in
    (st.settings ≡ thirty_days) × (load_settings place false st.file ≡ (st, none))
put_settings-load_example =
    put_settings-load no_atoi place true false (whole (pos 30)) true default_store thirty_days none
      refl put_shows

abbrev manifest_of : Str → Str → ℤ → Manifest
manifest_of id log finished = record {
  session_id = id;
  started_at = 0;
  finished_at = finished;
  browser = lit "chrome";
  browser_version = [];
  protocol = lit "webdriver";
  quota = lit "alice";
  log = some (record { filename = log; path = lit "/logs/" ++ log });
  video = none;
  downloads = [];
  downloads_status = lit "captured";
}

-- One that was finished at the first nanosecond, and one that was finished ten days later.
abbrev two_sessions : History
two_sessions = record {
  pending = [];
  files =
      (lit "/artifacts/sessions/s1.json", some (manifest_of (lit "s1") (lit "1.log") (pos 1)))
      ∷ (
        lit "/artifacts/sessions/s2.json",
        some (manifest_of (lit "s2") (lit "2.log") (pos (10 * day))),
      )
      ∷ (lit "/logs/1.log", none)
      ∷ (lit "/logs/2.log", none)
      ∷ (lit "/artifacts/downloads/s1/a.pdf", none)
      ∷ [];
}
