-- ===== src/Handlers/Create.antt =====
-- The handler `create` of selenwright.go. What the request holds, what the started service
-- answers and what the environment does are its arguments.
pub mod Choosing
pub mod Settling
use selenwright.Prelude.{
  ℕ, zero, suc, ◌+◌, Bool, true, false, List, [], ◌∷◌, ◌++◌, Option, none, some, Str, StrMap, lit,
  ◌==◌, lookup, insert, is_empty, not, split, Result, ok, err, ◌&&◌, ◌||◌, if◌then◌else◌, ℤ, pos,
  negsuc, ◌+ℤ◌,
}
use selenwright.Protect.Queue.{Semaphore, Queue}
use selenwright.Protect.Queue
use selenwright.Protect.Access.{Identity}
use selenwright.Session.{Session, SessionMap, Container, HostPort}
use selenwright.Session.Caps.{
  Caps, WireCaps, own_caps, browser_name, process_extension_capabilities,
}
use selenwright.Session.Sanitize.{SanitizeError, sanitize}
use selenwright.Session.Watchdog.{new_watchdog, start}
use selenwright.Handlers.App.{App}
use selenwright.Handlers.Capabilities.{
  get_screen_resolution, get_video_screen_size, get_session_timeout, configure_log_capture,
}
use selenwright.Handlers.Attempts.{
  Attempt, LoopEnd, retries_exceeded, client_disconnected, session_failed, answered, attempts,
}

pub record Config : Type 0 where
  pub caps_policy : Str
  pub max_timeout : ℤ
  pub timeout : ℤ
  pub disable_docker : Bool
  pub log_output_dir : Str
  pub save_all_logs : Bool
  pub retry_count : ℕ

pub record StartedService : Type 0 where
  pub url : Str × Str
  pub container : Option Container
  pub host_port : HostPort
  pub origin : Str
  pub downloads_dir : Str

-- What the handler takes from elsewhere: mergo.Merge with and without overriding, time.Parse-
-- Duration, the names of temporary files, the artifact history's switch, and the manager, which
-- finds a starter or not; the starter then starts the service or fails.
pub record Environment : Type 0 where
  pub merge : WireCaps → WireCaps → WireCaps
  pub merge_override : Caps → WireCaps → Caps
  pub parse_duration : Str → Option ℤ
  pub video_temp_name : Str
  pub log_temp_name : Str
  pub history_enabled : Bool
  pub find : Caps → Option (Option StartedService)

pub data Body : Type 0 where
  unreadable malformed : Body
  -- desiredCapabilities, alwaysMatch and firstMatch, whose pointers are nil for a null
  parsed : WireCaps → WireCaps → List (Option WireCaps) → Body

-- How the reply of the service is read: a Location header that parses or not, or a body.
pub data Reply : Type 0 where
  located : Option Str → Reply
  unreadable_body unprocessable_body : Reply
  identified : Str → Reply

pub data CreateError : Type 0 where
  error_reading_request bad_json_format : CreateError
  rejected_caps : SanitizeError → CreateError
  bad_session_timeout bad_screen_resolution bad_video_screen_size : CreateError
  environment_not_available service_startup_failed : CreateError
  loop_failed : LoopEnd → CreateError
  error_reading_response error_processing_response no_session_id : CreateError

-- How the handler ends: by a panic, or by a reply.
pub data CreateEnd : Type 0 where
  panicked : CreateEnd
  replies : Result CreateError Str → CreateEnd

-- What the loop over firstMatch settles on.
pub record Chosen : Type 0 where
  pub caps : Caps
  pub session_timeout : ℤ
  pub final_video_name : Str
  pub final_log_name : Str
  pub starter : Option StartedService

-- One candidate up to the call of the manager; the outer `none` is a panic.
pub prepare : Config → Environment → Bool → Caps → Option (Result CreateError Chosen)
prepare cfg env is_admin given = elim (sanitize given cfg.caps_policy is_admin) [
  | err e ↦ some (err (rejected_caps e))
  | ok c ↦
      elim (get_session_timeout env.parse_duration c.session_timeout cfg.max_timeout cfg.timeout) [
        | none ↦ some (err bad_session_timeout)
        | some session_timeout ↦ elim (get_screen_resolution c.screen_resolution) [
          | none ↦ some (err bad_screen_resolution)
          | some resolution ↦ elim (get_video_screen_size c.video_screen_size resolution) [
            | none ↦ none
            | some none ↦ some (err bad_video_screen_size)
            | some (some size) ↦
                let sized = record c { screen_resolution = resolution; video_screen_size = size } in
                let named = record sized {
                  video_name =
                      if c.video && not cfg.disable_docker
                      then env.video_temp_name
                      else c.video_name;
                } in
                some (
                  ok (record {
                    caps =
                        configure_log_capture cfg.log_output_dir cfg.save_all_logs env.log_temp_name
                          env.history_enabled named;
                    session_timeout = session_timeout;
                    final_video_name = c.video_name;
                    final_log_name = c.log_name;
                    starter = none;
                  }))
          ]
        ]
      ]
]

-- The loop over firstMatch; `*fmc` panics on nil.
pub choose :
    Config
    → Environment
    → Bool
    → WireCaps
    → List (Option WireCaps)
    → Option (Result CreateError Chosen)
unfolding prepare
choose cfg env is_admin base [] = some (err environment_not_available)
choose cfg env is_admin base (none ∷ rest) = none
choose cfg env is_admin base (some fmc ∷ rest) =
    elim (prepare cfg env is_admin
      (process_extension_capabilities env.merge_override (env.merge base fmc))) [
        | none ↦ none
        | some (err e) ↦ some (err e)
        | some (ok chosen) ↦ elim (env.find chosen.caps) [
          | some starter ↦ some (ok (record chosen { starter = starter }))
          | none ↦ choose cfg env is_admin base rest
        ]
      ]

-- The capabilities to start from, and the alternatives.
abbrev base_caps : WireCaps → WireCaps → WireCaps
base_caps desired always =
    if not (is_empty (browser_name (own_caps always))) && is_empty (browser_name (own_caps desired))
    then always
    else desired

abbrev alternatives : WireCaps → List (Option WireCaps) → List (Option WireCaps)
alternatives empty [] = some empty ∷ []
alternatives empty (fmc ∷ rest) = fmc ∷ rest

-- `strings.Split(path, "/")`, its last element.
abbrev last_fragment : List Str → Str
last_fragment [] = []
last_fragment (f ∷ []) = f
last_fragment (f ∷ g ∷ rest) = last_fragment (g ∷ rest)

unfoldable pub session_id : Reply → Result CreateError Str
session_id (located none) = err no_session_id
session_id (located (some path)) =
    let id = last_fragment (split b'/' path) in if is_empty id then err no_session_id else ok id
session_id unreadable_body = err error_reading_response
session_id unprocessable_body = err error_processing_response
session_id (identified id) = if is_empty id then err no_session_id else ok id

-- The session that is registered. `user` is the name that info.RequestInfo gives the client, `u_path`
-- the path of the service's URL, which the attempts may have changed.
pub new_session : Environment → Identity → Str → ℕ → ℤ → Chosen → StartedService → Str → Session
new_session env identity user started now chosen service u_path = record {
  quota = if is_empty identity.user then user else identity.user;
  owner_groups = identity.groups;
  caps = chosen.caps;
  url = (service.url.0, u_path);
  container = service.container;
  host_port = service.host_port;
  origin = service.origin;
  timeout = chosen.session_timeout;
  watchdog = some (start now (new_watchdog chosen.session_timeout));
  protocol = [];
  started = started;
  artifact_history_enabled = env.history_enabled;
  downloads_dir = service.downloads_dir;
}

module _ (s : Semaphore) where
  -- A failure before the service runs: give up the slot. `none` is a panic.
  pub fail : App s → CreateError → Option (App s × Result CreateError Str)
  fail app e = elim (Queue.drop s app.queue) [
    | none ↦ none
    | some q ↦ some (record app { queue = q }, err e)
  ]

  abbrev pub container_started : App s → App s
  container_started app = record app { containers = app.containers +ℤ pos 1 }

  -- A failure after: give up the slot and stop the container.
  pub fail_started : App s → CreateError → Option (App s × Result CreateError Str)
  unfolding fail
  fail_started app e = fail (record app { containers = app.containers +ℤ negsuc 0 }) e

  -- `app.sessions.Put` and `app.queue.Create`.
  abbrev pub register : Str → Session → App s → App s
  register id sess app = record app {
    sessions = insert id sess app.sessions;
    queue = Queue.create s app.queue;
  }

  -- From the running service to the registered session.
  pub finish :
      Config
      → Environment
      → Identity
      → Str
      → ℕ
      → ℤ
      → (ℕ → Attempt)
      → Reply
      → ℕ
      → Chosen
      → StartedService
      → App s
      → Option (App s × Result CreateError Str)
  unfolding fail_started
  finish cfg env identity user started now outcome reply fuel chosen service app =
      elim (attempts fuel cfg.retry_count outcome 1 service.url.1 (lit "/session")) [
        | none ↦ none
        | some (answered n u_path path code) ↦ elim (session_id reply) [
          | err e ↦ fail_started app e
          | ok id ↦ some (
            register id (new_session env identity user started now chosen service u_path) app,
            ok id,
          )
        ]
        | some other ↦ fail_started app (loop_failed other)
      ]

  abbrev reply_with : Option (App s × Result CreateError Str) → Option (App s × CreateEnd)
  reply_with none = none
  reply_with (some (app, r)) = some (app, replies r)

  -- The handler. A panic in the loop over firstMatch gives nothing back: the server closes the
  -- connection, and the service goes on. `none` is a panic of the semaphore, or the end of the fuel.
  pub create :
      Config
      → Environment
      → Identity
      → Str
      → ℕ
      → ℤ
      → Body
      → WireCaps
      → (ℕ → Attempt)
      → Reply
      → ℕ
      → App s
      → Option (App s × CreateEnd)
  unfolding fail finish
  create cfg env identity user started now unreadable empty outcome reply fuel app =
      reply_with (fail app error_reading_request)
  create cfg env identity user started now malformed empty outcome reply fuel app =
      reply_with (fail app bad_json_format)
  create cfg env identity user started now (parsed desired always first_match) empty outcome reply
        fuel app =
      elim (choose cfg env identity.is_admin (base_caps desired always)
        (alternatives empty first_match)) [
          | none ↦ some (app, panicked)
          | some (err e) ↦ reply_with (fail app e)
          | some (ok chosen) ↦ elim chosen.starter [
            | none ↦ reply_with (fail app service_startup_failed)
            | some service ↦ reply_with (
                finish cfg env identity user started now outcome reply fuel chosen service
                  (container_started app))
          ]
        ]
