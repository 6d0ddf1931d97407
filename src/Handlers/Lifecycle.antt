-- ===== src/Handlers/Lifecycle.antt =====
-- The life of a session across the handlers of selenwright.go and the queue: what the counters
-- and the session map have to agree on.
use selenwright.Prelude.{
  lookup, delete, lookup-delete, lookup-insert, false, some, arith, subst, Bool-cases, inl, inr,
  ◌==◌, [], suc, ℕ, ◌+◌, ◌≡◌, Str, insert, length, KeysNodup, pos, ok, err,
}
use selenwright.Protect.Queue.{Semaphore}
use selenwright.Protect.Queue.Balance.{Balanced}
use selenwright.Session.{Session, SessionMap, is_playwright}
use selenwright.Handlers.App.{App}
use selenwright.Handlers.Create.{CreateEnd, panicked, replies}

module _ (s : Semaphore) where
  -- With `starting` requests under way: every slot in use belongs to one of the sessions, and each
  -- has one container. `leaked` containers are never cancelled.
  pub record Accounts (leaked starting : ℕ) (app : App s) : Type 0 where
    pub balanced : Balanced s (length app.sessions) starting app.queue
    pub nodup : KeysNodup app.sessions
    pub contained : app.containers ≡ pos (length app.sessions + leaked)

  -- What a request to start a session leaves behind: one more session, or those there were; after a
  -- panic, everything as it was.
  abbrev pub Settles : App s → App s → CreateEnd → Type 0
  Settles app app' (replies (err e)) = app'.sessions ≡ app.sessions
  Settles app app' (replies (ok id)) =
      (sess : Session) × (app'.sessions ≡ insert id sess app.sessions) × (sess.protocol ≡ [])
  Settles app app' panicked = app' ≡ app

-- The pending slots of `p` other requests and of one that has ended so: a panic keeps its slot.
abbrev pub held_after : CreateEnd → ℕ → ℕ
held_after (replies r) p = p
held_after panicked p = suc p

-- No session is one of Playwright's.
abbrev pub AllWebDriver : SessionMap → Type 0
AllWebDriver m = (id : Str) (sess : Session) → lookup id m ≡ some sess → is_playwright sess ≡ false

pub delete-AllWebDriver : (id : Str) (m : SessionMap) → AllWebDriver m → AllWebDriver (delete id m)
delete-AllWebDriver id m h other sess found =
    h other sess (ground (arith, found, lookup-delete id other m))

pub insert-AllWebDriver :
    (id : Str) (new : Session) (m : SessionMap)
    → AllWebDriver m
    → is_playwright new ≡ false
    → AllWebDriver (insert id new m)
insert-AllWebDriver id new m h web other sess found = elim (Bool-cases (id == other)) [
  | inr apart ↦ h other sess (ground (arith, found, apart, lookup-insert id other new m))
  | inl same ↦
      let it : new ≡ sess = ground (arith, found, same, lookup-insert id other new m) in
      subst (λ x. is_playwright x ≡ false) it web
]
