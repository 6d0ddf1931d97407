-- ===== src/Lib.antt =====
-- Selenwright: a hub that starts browser sessions in containers and forwards WebDriver requests to
-- them, with authentication, API tokens and an admission queue in front.
--
-- A request passes the check of its source (protect/source_trust.go), authentication
-- (protect/auth.go, with the password file, the login sessions and the API tokens behind it) and,
-- if it names a session, the owner's check (main.go, protect/session_acl.go). A request to start a
-- session then waits in the queue (protect/queue.go); the handler `create` of selenwright.go checks
-- its capabilities (session/sanitize.go), starts a service, asks it for a session and registers it
-- in the session map (session/session.go). The handler `proxy` forwards all else, restarts the idle
-- timer (session/watchdog.go) and ends the session on a DELETE. A Playwright client takes a slot of
-- the same queue and an entry of the same map (playwright.go), and its session ends with its
-- connection. The browsers come from labels on images that an admin adopts (discovery/). An end of
-- a session is an event (event/event.go), by which the artifact history writes its manifest; the
-- history has its settings and its janitor (artifact_history.go). An admin manages tokens
-- (handlers_tokens.go) and updates the stack's own services (stack_versions.go, stack_update.go).
--
-- Files:
--   Prelude            shared names; Go's strings, maps, errors and paths over lists of bytes
--   Safepath           internal/safepath/safepath.go, with Inside
--   Config             config/config.go: `find` is Find, with Choice
--   Protect.Queue      protect/queue.go: `try`, `check` and `protect` are the handlers Try, Check
--                      and Protect, `drop`, `create` and `release` the methods; Balance has the
--                      books of the counters, Admit the chain of handlers
--   Protect.Token      protect/token.go: Index has the lookup through the index, Steps the
--                      operations as steps, Revoking and Issuing what they do to a later lookup
--   Protect.Access     protect/session_acl.go, Protect.AuthSessions: protect/session_store.go
--   Protect.Htpasswd   protect/htpasswd.go, Protect.SourceTrust: protect/source_trust.go
--   Protect.Auth       protect/auth.go and protect/session_auth.go, Protect.Request: what they read
--   Session            session/session.go, with Caps; Watchdog, Sanitize and LogSink are the other
--                      files of session/
--   Handlers           selenwright.go: Capabilities (the functions on capabilities), Attempts (the
--                      loop that asks for a session), Create (`create`, with Choosing and
--                      Settling), Proxy (`proxy`, with Committing, Answering, Ending and
--                      Overlapping), App (the state in server.go), Lifecycle and History (the books
--                      of the whole service); Routes is the way through main.go; Admin is
--                      handlers_tokens.go, with Managing, and Login login.go and whoami.go, with
--                      Cycle
--   Playwright         playwright.go: Url and SessionId read a request, Starting is `playwright` up
--                      to its tunnel, with Settling, Ending its cleanup and the DELETE, with Once,
--                      Frames the lines of the log
--   Discovery          discovery/ and discovery_handlers.go: Labels is parse.go, Scan discovery.go,
--                      Adopted adopted.go, Catalog catalog.go, Handling the endpoints
--   Artifacts          artifact_history.go: Settings, and Manifests with the captures and the
--                      janitor
--   Stack              stack_versions.go and stack_update.go: Images and Candidates, Hub with
--                      the pages and the cache of tags, and Plan and Quoting for an update
--   Events             event/event.go: the pool of workers as steps, with Draining
--   Tests              concrete runs
--
-- State is passed explicitly. A method that holds its lock throughout is one step; the watchdog's
-- steps are its atomic operations. Times are natural numbers or integers of nanoseconds, counters
-- of the queue are integers since atomic.Int64 may fall below zero; none of them comes near the
-- bounds of 64 bits. An outer `none` stands for a panic, or for the end of the fuel in the loop of
-- `create`; fuel of two more than the retry count is enough. The search for a random session id has
-- fuel too: one more than the round that ends it. Maps are association lists, whose order is the
-- order of one iteration. Go strings are lists of bytes; case folding and trimming are those of ASCII.
--
-- A panic of `create` or an abort of `proxy` by ServeHTTP is an answer that keeps the state, since
-- net/http catches it and the service goes on. The books of History are those of a service that only
-- WebDriver clients use, whose requests to one session do not overlap; Playwright has the books of
-- its own handler. Metrics are disabled, as they are by default. The files of the artifact history
-- are a map from clean paths; there are no symbolic links.
--
-- Parameters: the semaphore of golang.org/x/sync, bcrypt and SHA-256, net and crypto/x509, mergo,
-- time.ParseDuration, golang.org/x/mod/semver, sorting, percent-decoding, random bytes, the success of
-- writes, what a started service, Docker and a registry answer.
--
-- Not modelled: metrics and log lines, the rewriting of JSON bodies, the renaming of video and log
-- files at the end of a session of WebDriver, the container engine (service/), the registry client,
-- the copying of WebSocket frames, the extraction and the listings of the artifact history, the
-- other endpoints of the stack, the listeners of events, and uploads.
pub mod Prelude
pub mod Safepath
pub mod Config
pub mod Protect
pub mod Session
pub mod Handlers
pub mod Playwright
pub mod Discovery
pub mod Artifacts
pub mod Stack
pub mod Events
pub mod Tests
