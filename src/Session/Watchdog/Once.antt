-- ===== src/Session/Watchdog/Once.antt =====
-- Whatever the interleaving, a watchdog has one outcome.
use selenwright.Prelude.{
  ℕ, ◌+◌, ◌≤◌, ◌≡◌, refl, true, false, List, [], ◌∷◌, ℤ, arith, ◌≢◌, sym, ◌∙◌,
}
use selenwright.Session.Watchdog.{
  Watchdog, WatchdogState, active, stopped, expired, new_watchdog, touch, stop, expire, Event, step,
  history, starts, touches, stops, expires, fires, rounds,
}

-- Only the winner of the swap to `expired` calls onExpire, and it does so once.
pub record IsSound (w : Watchdog) : Type 0 where
  pub one : w.calls + w.winners ≤ 1
  pub won : w.state ≢ expired → w.calls + w.winners ≡ 0
  pub counted : w.fire_done ≡ false → w.calls ≡ 0
  pub called : w.fire_done ≡ true → w.calls ≡ 1

new_watchdog-IsSound : (timeout : ℤ) → IsSound (new_watchdog timeout)
unfolding new_watchdog
new_watchdog-IsSound timeout = ground arith

step-IsSound : (w : Watchdog) (e : Event) → IsSound w → IsSound (step w e)
unfolding step
step-IsSound w (starts now) v = ground arith
step-IsSound w (touches now) v = ground arith
step-IsSound w stops v = ground arith
step-IsSound w expires v = ground arith
step-IsSound w fires v = ground arith
step-IsSound w (rounds now woken) v = ground arith

history-IsSound : (w : Watchdog) (es : List Event) → IsSound w → IsSound (history w es)
unfolding history
history-IsSound w [] v = v
history-IsSound w (e ∷ es) v = history-IsSound (step w e) es (step-IsSound w e v)

step-calls : (w : Watchdog) (e : Event) → w.calls ≤ (step w e).calls
unfolding step
step-calls w (starts now) = ground arith
step-calls w (touches now) = ground arith
step-calls w stops = ground arith
step-calls w expires = ground arith
step-calls w fires = ground arith
step-calls w (rounds now woken) = ground arith

-- The calls of onExpire that a state allows.
abbrev pub allowed_calls : WatchdogState → ℕ
allowed_calls active = 0
allowed_calls stopped = 0
allowed_calls expired = 1

calls_allowed : (w : Watchdog) → IsSound w → w.calls ≤ allowed_calls w.state
calls_allowed w v = ground (arith, v.one, v.won)

-- From a fresh watchdog, every interleaving of Start, Touch, Stop, Expire and the rounds of the
-- timer goroutine calls onExpire at most once, and not at all unless the watchdog has expired.
pub history-calls :
    (timeout : ℤ) (es : List Event)
    → (history (new_watchdog timeout) es).calls
      ≤ allowed_calls (history (new_watchdog timeout) es).state
history-calls timeout es =
    calls_allowed (history (new_watchdog timeout) es)
      (history-IsSound (new_watchdog timeout) es (new_watchdog-IsSound timeout))

settled : (w : Watchdog) (e : Event) → w.state ≢ active → (step w e).state ≡ w.state
unfolding step
settled w (starts now) n = ground arith
settled w (touches now) n = ground arith
settled w stops n = ground arith
settled w expires n = ground arith
settled w fires n = ground arith
settled w (rounds now woken) n = ground arith

history-settled :
    (w : Watchdog) (es : List Event) → w.state ≢ active → (history w es).state ≡ w.state
unfolding history
history-settled w [] n = refl
history-settled w (e ∷ es) n =
    history-settled (step w e) es (λ h. n (sym (settled w e n) ∙ h)) ∙ settled w e n

stop_wins : (w : Watchdog) → (stop w).1 ≡ true → (stop w).0.state ≡ stopped
unfolding stop
stop_wins w h = ground arith

stop-IsSound : (w : Watchdog) → IsSound w → IsSound (stop w).0
unfolding stop
stop-IsSound w v = ground arith

refused :
    (now : ℤ) (w : Watchdog)
    → w.state ≡ stopped
    → ((stop w).1 ≡ false) × ((expire w).1 ≡ false) × ((touch now w).1 ≡ false)
unfolding stop expire touch
refused now w h = ground arith

-- Once Stop has reported success, no later step calls onExpire, and each later Stop, Expire or
-- Touch reports failure.
pub history_after_stop :
    (timeout : ℤ) (es fs : List Event) (now : ℤ)
    → (stop (history (new_watchdog timeout) es)).1 ≡ true
    → let w = history (stop (history (new_watchdog timeout) es)).0 fs in
      (w.calls ≡ 0) × ((stop w).1 ≡ false) × ((expire w).1 ≡ false) × ((touch now w).1 ≡ false)
history_after_stop timeout es fs now won =
    let w₀ = history (new_watchdog timeout) es in
    let v₀ = history-IsSound (new_watchdog timeout) es (new_watchdog-IsSound timeout) in
    let v = history-IsSound (stop w₀).0 fs (stop-IsSound w₀ v₀) in
    let e : (stop w₀).0.state ≡ stopped = stop_wins w₀ won in
    let f : (history (stop w₀).0 fs).state ≡ stopped =
      history-settled (stop w₀).0 fs (λ h. cc) ∙ e in
    let (r₁, r₂, r₃) = refused now (history (stop w₀).0 fs) f in
    (omega (arith, v.won (λ h. cc)), r₁, r₂, r₃)
