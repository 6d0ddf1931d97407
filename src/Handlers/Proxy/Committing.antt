-- ===== src/Handlers/Proxy/Committing.antt =====
-- The critical section of a DELETE and what the handler does with a session that it has found.
use selenwright.Prelude.{
  ℕ, zero, suc, ◌≤◌, ◌≡◌, refl, not, Bool, true, false, List, [], ◌∷◌, none, some, Str, lookup,
  insert, delete, length, KeysNodup, insert-KeysNodup, delete-KeysNodup, length-delete_present,
  length-insert_present, get_elem?, ap, ==_iff, ℤ, ◌+ℤ◌, arith, Option-cases, Bool-cases, inl, inr,
  sym, subst, ◌==◌, ◌&&◌, ltb, eqb, if◌then◌else◌,
}
use selenwright.Protect.Queue.{Semaphore}
use selenwright.Protect.Queue.Balance.{Balanced, release_total}
use selenwright.Session.{Session, SessionMap, is_playwright}
use selenwright.Handlers.App.{App, touch_watchdog, stop_watchdog}
use selenwright.Handlers.Proxy.{
  Outcome, vendor, forwarded, vendor_path, vendor_prefix, target, get_or_nil, commit_delete,
  cleanup, cancel, container_stopped, serve_http, ended, aborted, error_page, proxy_session,
}
use selenwright.Handlers.Lifecycle.{Accounts}

get_elem?-none {ℓ} : {A : Type ℓ} (i : ℕ) (xs : List A) → get_elem? xs i ≡ none → length xs ≤ i
get_elem?-none i [] e = omega arith
get_elem?-none zero (x ∷ xs) e = cc
get_elem?-none (suc i) (x ∷ xs) e = ground (arith, get_elem?-none i xs e)

vendor_path-none :
    (fragments : List Str) (id : Str) → vendor_path fragments id ≡ none → length fragments ≤ 4
unfolding vendor_path
vendor_path-none fragments id e = ground (arith, get_elem?-none 4 fragments)

pub four_fragments :
    (fs : List Str)
    → (eqb (length fs) 4 && get_or_nil fs 3 == vendor_prefix) ≡ true
    → (root : Str) × (prefix : Str) × (id : Str) × (fs ≡ root ∷ prefix ∷ id ∷ vendor_prefix ∷ [])
four_fragments [] e = ground arith
four_fragments (a ∷ []) e = ground arith
four_fragments (a ∷ b ∷ []) e = ground arith
four_fragments (a ∷ b ∷ c ∷ []) e = ground arith
four_fragments (a ∷ b ∷ c ∷ d ∷ []) e =
    (a, b, c, ap (λ x. a ∷ b ∷ c ∷ x ∷ []) (ground (arith, ==_iff d vendor_prefix)))
four_fragments (a ∷ b ∷ c ∷ d ∷ f ∷ fs) e = ground arith

-- The containers that a DELETE leaves behind.
abbrev pub leaves : Bool → ℕ → ℕ
leaves completes leaked = if completes then leaked else suc leaked

-- A DELETE of the session itself.
abbrev pub ends : Bool → List Str → Bool
ends is_delete fragments = is_delete && eqb (length fragments) 3

abbrev pub is_vendor : List Str → Bool
is_vendor fragments = ltb 3 (length fragments) && get_or_nil fragments 3 == vendor_prefix

abbrev pub is_aborted : Outcome → Bool
is_aborted (aborted o) = true
is_aborted error_page = false
is_aborted (vendor path) = false
is_aborted (forwarded t) = false
is_aborted (ended sess t) = false

pub serve_http-aborted :
    (completes : Bool) (o : Outcome)
    → is_aborted o ≡ false
    → is_aborted (serve_http completes o) ≡ not completes
serve_http-aborted true o h = h
serve_http-aborted false o h = refl

module _ (s : Semaphore) where
  pub commit_delete_total :
      (leaked p : ℕ) (id : Str) (sess : Session) (app : App s)
      → Accounts s leaked p app
      → lookup id app.sessions ≡ some sess
      → (app' : App s) × (commit_delete s id sess app ≡ some (app', stop_watchdog sess))
        × Balanced s (length app'.sessions) p app'.queue
        × (app'.sessions ≡ delete id app.sessions)
        × (app'.containers ≡ app.containers)
  unfolding commit_delete
  commit_delete_total leaked p id sess app a found =
      let shorter : length app.sessions ≡ suc (length (delete id app.sessions)) =
        ground (arith, length-delete_present id sess app.sessions a.nodup found) in
      let (q, released, b, _) =
        release_total s (length (delete id app.sessions)) p app.queue
          (subst (λ n. Balanced s n p app.queue) shorter a.balanced) in
      (
        record app {
          queue = q;
          sessions = delete id app.sessions;
          uploads_removed =
              if app.enable_file_upload then id ∷ app.uploads_removed else app.uploads_removed;
        },
        ground (arith, released),
        b,
        refl,
        refl,
      )

  -- Cancel of a WebDriver session.
  abbrev pub cancelled : Bool → App s → App s
  cancelled completes app = if completes then container_stopped s app else app

  pub cleanup-WebDriver :
      (completes : Bool) (id : Str) (sess : Session) (app : App s)
      → is_playwright sess ≡ false
      → cleanup s completes id (stop_watchdog sess) app ≡ some (cancelled completes app)
  unfolding cleanup cancel stop_watchdog
  cleanup-WebDriver true id sess app web = elim (Option-cases sess.watchdog) [
    | inl no_timer ↦ ground (arith, web, no_timer)
    | inr (w, timer) ↦ ground (arith, web, timer)
  ]
  cleanup-WebDriver false id sess app web = refl

  pub cleanup-Accounts :
      (leaked p : ℕ) (completes : Bool) (id : Str) (sess : Session) (app app' : App s)
      → Accounts s leaked p app
      → lookup id app.sessions ≡ some sess
      → Balanced s (length app'.sessions) p app'.queue
      → app'.sessions ≡ delete id app.sessions
      → app'.containers ≡ app.containers
      → Accounts s (leaves completes leaked) p (cancelled completes app')
  unfolding ◌+ℤ◌
  cleanup-Accounts leaked p true id sess app app' a found b gone kept =
      let shorter : length app.sessions ≡ suc (length app'.sessions) =
        ground (arith, length-delete_present id sess app.sessions a.nodup found) in
      record {
        balanced = b;
        nodup = subst KeysNodup (sym gone) (delete-KeysNodup id app.sessions a.nodup);
        contained = ground (arith, a.contained, shorter);
      }
  cleanup-Accounts leaked p false id sess app app' a found b gone kept =
      let shorter : length app.sessions ≡ suc (length app'.sessions) =
        ground (arith, length-delete_present id sess app.sessions a.nodup found) in
      record {
        balanced = b;
        nodup = subst KeysNodup (sym gone) (delete-KeysNodup id app.sessions a.nodup);
        contained = ground (arith, a.contained, shorter);
      }

  -- The sessions that a request to the session `id` leaves.
  abbrev pub sessions_after : ℤ → Bool → List Str → Str → Session → App s → SessionMap
  sessions_after now is_delete fragments id sess app =
      if ends is_delete fragments
      then delete id app.sessions
      else if is_vendor fragments
      then app.sessions
      else insert id (touch_watchdog now sess) app.sessions

  touched-Accounts :
      (leaked p : ℕ) (id : Str) (sess new : Session) (app : App s)
      → Accounts s leaked p app
      → lookup id app.sessions ≡ some sess
      → Accounts s leaked p (record app { sessions = insert id new app.sessions })
  touched-Accounts leaked p id sess new app a found =
      let same = length-insert_present id new sess app.sessions found in
      record {
        balanced = subst (λ n. Balanced s n p app.queue) (sym same) a.balanced;
        nodup = insert-KeysNodup id new app.sessions a.nodup;
        contained = ground (arith, a.contained, same);
      }

  pub proxy_session_total :
      (leaked p : ℕ) (now : ℤ) (completes is_delete : Bool) (fragments : List Str) (path id : Str)
      (sess : Session) (app : App s)
      → Accounts s leaked p app
      → lookup id app.sessions ≡ some sess
      → is_playwright sess ≡ false
      → (eqb (length fragments) 4 && get_or_nil fragments 3 == vendor_prefix) ≡ false
      → (app' : App s) × (o : Outcome) × (proxy_session s now completes is_delete fragments path id
            sess app
          ≡ some (app', o))
        × Accounts s (if ends is_delete fragments then leaves completes leaked else leaked) p app'
        × (app'.sessions ≡ sessions_after now is_delete fragments id sess app)
        × (is_aborted o ≡ not completes)
  unfolding proxy_session
  proxy_session_total leaked p now completes is_delete fragments path id sess app a found web safe =
      elim (Bool-cases (is_vendor fragments)) [
        | inl v ↦ elim (Option-cases (vendor_path fragments id)) [
          | inl bad ↦ absurd (ground (arith, v, safe, vendor_path-none fragments id bad))
          | inr (rewritten, ok_path) ↦
              let stays : false ≡ ends is_delete fragments = ground (arith, v) in
              (
                app,
                serve_http completes (vendor rewritten),
                ground (arith, v, ok_path),
                subst (λ b. Accounts s (if b then leaves completes leaked else leaked) p app) stays
                    a,
                ground (arith, v, stays),
                serve_http-aborted completes (vendor rewritten) refl,
              )
        ]
        | inr v ↦ elim (Bool-cases (ends is_delete fragments)) [
          | inl d ↦
              let (app', committed, b, gone, kept) =
                commit_delete_total leaked p id sess app a found in
              (
                cancelled completes app',
                serve_http completes (
                    ended (stop_watchdog sess)
                      (target app.enable_file_upload fragments path id (stop_watchdog sess))),
                ground (arith, v, d, committed, cleanup-WebDriver completes id sess app' web),
                subst
                    (λ b.
                      Accounts s (if b then leaves completes leaked else leaked) p
                        (cancelled completes app'))
                    (sym d)
                    (cleanup-Accounts leaked p completes id sess app app' a found b gone kept),
                ground (arith, d, gone),
                serve_http-aborted completes
                    (ended (stop_watchdog sess)
                      (target app.enable_file_upload fragments path id (stop_watchdog sess)))
                    refl,
              )
          | inr d ↦
              let touched = touch_watchdog now sess in
              (
                record app { sessions = insert id touched app.sessions },
                serve_http completes
                    (forwarded (target app.enable_file_upload fragments path id touched)),
                ground (arith, v, d),
                subst
                    (λ b.
                      Accounts s (if b then leaves completes leaked else leaked) p
                        (record app { sessions = insert id touched app.sessions }))
                    (sym d) (touched-Accounts leaked p id sess touched app a found),
                ground (arith, v, d),
                serve_http-aborted completes
                    (forwarded (target app.enable_file_upload fragments path id touched)) refl,
              )
        ]
      ]
