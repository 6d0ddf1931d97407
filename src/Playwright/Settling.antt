-- ===== src/Playwright/Settling.antt =====
-- The start of a Playwright session settles its slot, its container and its connection on every path.
use selenwright.Prelude.{
  ℕ, suc, ◌<◌, ◌≡◌, refl, true, false, [], ◌∷◌, Option, none, some, Str, lookup, insert, length,
  insert-KeysNodup, length-insert_new, lookup-insert, ==_refl, pos, negsuc, ◌+ℤ◌, Result, ok, err,
  arith, Bool-cases, Option-cases, Result-cases, inl, inr, subst,
}
use selenwright.Protect.Queue.{Semaphore}
use selenwright.Protect.Queue.Balance.{Balanced, drop_total, create-Balanced}
use selenwright.Session.{protocol_playwright, Session}
use selenwright.Session.Caps.{Caps}
use selenwright.Session.Sanitize.{sanitize}
use selenwright.Handlers.Capabilities.{configure_log_capture}
use selenwright.Handlers.Lifecycle.{Accounts}
use selenwright.Playwright.Url.{parse_playwright_path}
use selenwright.Playwright.SessionId.{
  IsRandom, ends_at, IsNewId, Resolved, resolve_playwright_session_id-Resolved,
}
use selenwright.Playwright.Starting.{
  World, Settings, Environment, Request, PlaywrightService, PlaywrightError, drop_slot,
  service_cancel, close_upstream, run_cleanup, early_cleanup, give_up, service_started,
  upstream_dialed, register, new_session, connected, started, playwright, request_caps,
  bad_playwright_path, bad_playwright_request, rejected_caps, environment_not_available,
  service_startup_failed, url_not_configured, playwright_dial_failed, session_id_failed,
  playwright_upgrade_failed,
}

module _ (s : Semaphore) where
  -- What the handler leaves: after an error the sessions and the open connections there were, after
  -- a success one more of each, under an id that was no session's.
  abbrev pub Settled : World s → World s → Result PlaywrightError Str → Type 0
  Settled w w' (err e) = (w'.app.sessions ≡ w.app.sessions) × (w'.upstreams ≡ w.upstreams)
  Settled w w' (ok id) =
      (sess : Session) × (sess.protocol ≡ protocol_playwright)
      × (w'.app.sessions ≡ insert id sess w.app.sessions)
      × IsNewId w.app.sessions id
      × (w'.upstreams ≡ w.upstreams +ℤ pos 1)
      × (lookup id w'.cleaned ≡ some false)

  abbrev pub Settles : ℕ → ℕ → World s → Option (World s × Result PlaywrightError Str) → Type 0
  Settles leaked p w o =
      (w' : World s) × (r : Result PlaywrightError Str) × (o ≡ some (w', r))
      × Accounts s leaked p w'.app
      × Settled w w' r

  drops :
      (leaked p : ℕ) (w : World s) (e : PlaywrightError)
      → Accounts s leaked (suc p) w.app
      → Settles leaked p w (give_up s (drop_slot ∷ []) e w)
  unfolding give_up early_cleanup run_cleanup
  drops leaked p w e a =
      let (q, dropped, b, _) = drop_total s (length w.app.sessions) p w.app.queue a.balanced in
      (
        record w { app = record w.app { queue = q } },
        err e,
        ground (arith, dropped),
        record { balanced = b; nodup = a.nodup; contained = a.contained },
        (refl, refl),
      )

  cancels :
      (leaked p : ℕ) (w : World s) (e : PlaywrightError)
      → Accounts s leaked (suc p) w.app
      → Settles leaked p w (give_up s (service_cancel ∷ drop_slot ∷ []) e (service_started s w))
  unfolding give_up early_cleanup run_cleanup ◌+ℤ◌
  cancels leaked p w e a =
      let (q, dropped, b, _) = drop_total s (length w.app.sessions) p w.app.queue a.balanced in
      (
        record w {
          app = record w.app { queue = q; containers = w.app.containers +ℤ pos 1 +ℤ negsuc 0 };
        },
        err e,
        ground (arith, dropped),
        record { balanced = b; nodup = a.nodup; contained = ground (arith, a.contained) },
        (refl, refl),
      )

  closes :
      (leaked p : ℕ) (w : World s) (e : PlaywrightError)
      → Accounts s leaked (suc p) w.app
      → Settles leaked p w (
          give_up s
            (close_upstream ∷ service_cancel ∷ drop_slot ∷ [])
            e
            (upstream_dialed s (service_started s w)))
  unfolding give_up early_cleanup run_cleanup ◌+ℤ◌
  closes leaked p w e a =
      let (q, dropped, b, _) = drop_total s (length w.app.sessions) p w.app.queue a.balanced in
      (
        record w {
          app = record w.app { queue = q; containers = w.app.containers +ℤ pos 1 +ℤ negsuc 0 };
          upstreams = w.upstreams +ℤ pos 1 +ℤ negsuc 0;
        },
        err e,
        ground (arith, dropped),
        record { balanced = b; nodup = a.nodup; contained = ground (arith, a.contained) },
        (refl, ground arith),
      )

  registers :
      (leaked p : ℕ) (w : World s) (id : Str) (sess : Session)
      → Accounts s leaked (suc p) w.app
      → lookup id w.app.sessions ≡ none
      → Accounts s leaked p (register s id sess (upstream_dialed s (service_started s w))).app
  unfolding register ◌+ℤ◌
  registers leaked p w id sess a fresh =
      let longer : suc (length w.app.sessions) ≡ length (insert id sess w.app.sessions) =
        ground (arith, length-insert_new id sess w.app.sessions fresh) in
      record {
        balanced =
            subst (λ n. Balanced s n p (register s id sess w).app.queue) longer
              (create-Balanced s (length w.app.sessions) p w.app.queue a.balanced);
        nodup = insert-KeysNodup id sess w.app.sessions a.nodup;
        contained = ground (arith, a.contained, longer);
      }

  module _ (cfg : Settings) (env : Environment) (r : Request) (fuel k leaked p : ℕ) (w : World s)
      (a : Accounts s leaked (suc p) w.app) (fair : IsRandom env.random)
      (ends : ends_at env.random w.app.sessions k ≡ true) (enough : k < fuel) where
    connected-Settles :
        (caps : Caps) (service : PlaywrightService) (url : Str × Str)
        → Settles leaked p w
            (connected s cfg env r fuel caps service url (upstream_dialed s (service_started s w)))
    unfolding connected register new_session
    connected-Settles caps service url =
        let (o, resolved, good) =
          resolve_playwright_session_id-Resolved fuel env.random r.session_header k w.app.sessions
            fair ends enough in
        elim (Result-cases o) [
          | inl (e, is_err) ↦
              let (w', o', given, a', end) = closes leaked p w (session_id_failed e) a in
              (w', o', ground (arith, resolved, is_err, given), a', end)
          | inr (id, is_ok) ↦
              let new : IsNewId w.app.sessions id = subst (Resolved w.app.sessions) is_ok good in
              elim (Bool-cases env.upgrades) [
                | inr fails ↦
                    let (w', o', given, a', end) = closes leaked p w playwright_upgrade_failed a in
                    (w', o', ground (arith, resolved, is_ok, fails, given), a', end)
                | inl upgraded ↦
                    let sess = new_session cfg env r caps service url in
                    (
                      register s id sess (upstream_dialed s (service_started s w)),
                      ok id,
                      ground (arith, resolved, is_ok, upgraded),
                      registers leaked p w id sess a new.1,
                      (
                        sess,
                        refl,
                        refl,
                        new,
                        refl,
                        ground (arith, lookup-insert id id false w.cleaned, ==_refl id),
                      ),
                    )
              ]
        ]

    started-Settles :
        (caps : Caps) (starter : Option PlaywrightService)
        → Settles leaked p w (started s cfg env r fuel caps starter w)
    unfolding started
    started-Settles caps none = drops leaked p w service_startup_failed a
    started-Settles caps (some service) = elim (Option-cases service.url) [
      | inl missing ↦
          let (w', o', given, a', end) = cancels leaked p w url_not_configured a in
          (w', o', ground (arith, missing, given), a', end)
      | inr (url, there) ↦ elim (Bool-cases env.dials) [
        | inr fails ↦
            let (w', o', given, a', end) = cancels leaked p w playwright_dial_failed a in
            (w', o', ground (arith, there, fails, given), a', end)
        | inl dialed ↦
            let (w', o', given, a', end) = connected-Settles caps service url in
            (w', o', ground (arith, there, dialed, given), a', end)
      ]
    ]

    -- From right books with one request pending, where a read of random bytes among the first `fuel`
    -- ends the search for an id, `playwright` reaches its tunnel or an error, without a panic, and the
    -- books are right with that request settled: an error, wherever it comes from, gives back the
    -- slot, stops the container it started and closes the connection it opened; a success registers
    -- a session under an id that no session had, with a cleanup that has not run.
    pub playwright-Settles : Settles leaked p w (playwright s cfg env r fuel w)
    unfolding playwright
    playwright-Settles = elim (Option-cases (parse_playwright_path env.unescape r.encoded_path)) [
      | inl bad ↦
          let (w', o', given, a', end) = drops leaked p w bad_playwright_path a in
          (w', o', ground (arith, bad, given), a', end)
      | inr ((browser, version), parsed) ↦ elim (Bool-cases r.is_web_socket_upgrade) [
        | inr plain ↦
            let (w', o', given, a', end) = drops leaked p w bad_playwright_request a in
            (w', o', ground (arith, parsed, plain, given), a', end)
        | inl upgrade ↦
            let given_caps =
              configure_log_capture cfg.log_output_dir cfg.save_all_logs env.log_temp_name
                env.history_enabled (request_caps cfg r.query browser version) in
            elim (Result-cases (sanitize given_caps cfg.caps_policy r.identity.is_admin)) [
              | inl (e, bad) ↦
                  let (w', o', given, a', end) = drops leaked p w (rejected_caps e) a in
                  (w', o', ground (arith, parsed, upgrade, bad, given), a', end)
              | inr (caps, clean) ↦ elim (Option-cases (env.find caps)) [
                | inl missing ↦
                    let (w', o', given, a', end) = drops leaked p w environment_not_available a in
                    (w', o', ground (arith, parsed, upgrade, clean, missing, given), a', end)
                | inr (starter, found) ↦
                    let (w', o', given, a', end) = started-Settles caps starter in
                    (w', o', ground (arith, parsed, upgrade, clean, found, given), a', end)
              ]
            ]
      ]
    ]
