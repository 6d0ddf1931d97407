-- ===== src/Protect/Queue.antt =====
-- protect/queue.go: the admission queue in front of the handlers that start sessions.
-- golang.org/x/sync/semaphore is not part of the repository: it is the parameter `Semaphore`.
pub mod Balance
pub mod Admit
use selenwright.Prelude.{
  ℕ, suc, ◌≤◌, ◌<◌, ◌≡◌, Bool, true, false, Option, none, some, ℤ, pos, negsuc, ◌+ℤ◌, if◌then◌else◌,
}

-- semaphore.Weighted used with weight 1. `release` is `none` where the package panics, which it
-- does when more is released than is held.
pub record Semaphore : Type 1 where
  pub Weighted : Type 0
  pub new_weighted : ℕ → Weighted
  pub held : Weighted → ℕ
  pub capacity : Weighted → ℕ
  pub try_acquire : Weighted → Option Weighted
  pub release : Weighted → Option Weighted
  pub new-held : (n : ℕ) → held (new_weighted n) ≡ 0
  pub new-capacity : (n : ℕ) → capacity (new_weighted n) ≡ n
  pub try_acquire_free :
      (w : Weighted)
      → held w < capacity w
      → (w' : Weighted) × (try_acquire w ≡ some w')
        × (held w' ≡ suc (held w))
        × (capacity w' ≡ capacity w)
  pub try_acquire_full : (w : Weighted) → capacity w ≤ held w → try_acquire w ≡ none
  pub release_held :
      (w : Weighted)
      → 0 < held w
      → (w' : Weighted) × (release w ≡ some w')
        × (suc (held w') ≡ held w)
        × (capacity w' ≡ capacity w)
  pub release_empty : (w : Weighted) → held w ≡ 0 → release w ≡ none

-- What became of a request on its way through Try, Check and Protect.
pub data Admission (Q : Type 0) : Type 0 where
  too_many_requests : Q → Admission Q
  queue_full : Q → Admission Q
  client_disconnected : Q → Admission Q
  accepted : Q → Admission Q

module _ (s : Semaphore) where
  open s use {Weighted, new_weighted, try_acquire, release as release_slot}

  -- The counters are atomic.Int64, and can fall below zero.
  pub record Queue : Type 0 where
    pub disabled : Bool
    pub limit : Weighted
    pub size : ℕ
    pub used : ℤ
    pub pending : ℤ
    pub queued : ℤ

  unfoldable pub new : ℕ → Bool → Queue
  new size disabled = record {
    disabled = disabled;
    limit = new_weighted size;
    size = size;
    used = pos 0;
    pending = pos 0;
    queued = pos 0;
  }

  -- Takes a slot and gives it back; `none` where giving it back would panic.
  pub has_free_slot : Queue → Option (Queue × Bool)
  has_free_slot q = elim (try_acquire q.limit) [
    | none ↦ some (q, false)
    | some w ↦ elim (release_slot w) [
      | none ↦ none
      | some w' ↦ some (record q { limit = w' }, true)
    ]
  ]

  -- The three moments of Protect: the request waits, gets its slot, or goes away.
  unfoldable pub enter : Queue → Queue
  enter q = record q { queued = q.queued +ℤ pos 1 }

  unfoldable pub grant : Queue → Option Queue
  grant q = elim (try_acquire q.limit) [
    | none ↦ none
    | some w ↦
        some (record q { limit = w; queued = q.queued +ℤ negsuc 0; pending = q.pending +ℤ pos 1 })
  ]

  pub disconnect : Queue → Queue
  disconnect q = record q { queued = q.queued +ℤ negsuc 0 }

  -- `Acquire` blocks until a slot is free or the request's context ends: `granted` says which
  -- came first. `none` is a wait that has not ended yet.
  unfoldable pub protect : Queue → Bool → Option (Admission Queue)
  unfolding enter grant disconnect
  protect q granted =
      if granted
      then (elim (grant (enter q)) [ none ↦ none | some q' ↦ some (accepted q') ])
      else some (client_disconnected (disconnect (enter q)))

  unfoldable pub check : Queue → Bool → Option (Admission Queue)
  unfolding has_free_slot protect
  check q granted =
      if q.disabled
      then (elim (has_free_slot q) [
        | none ↦ none
        | some (q', free) ↦ if free then protect q' granted else some (queue_full q')
      ])
      else protect q granted

  -- The handler of a session request: Try(Check(Protect(next))).
  unfoldable pub try : Queue → Bool → Bool → Option (Admission Queue)
  unfolding has_free_slot check
  try q no_wait granted =
      if no_wait
      then (elim (has_free_slot q) [
        | none ↦ none
        | some (q', free) ↦ if free then check q' granted else some (too_many_requests q')
      ])
      else check q granted

  -- The request's handler gives up its slot. `none` is the panic of the semaphore.
  pub drop : Queue → Option Queue
  drop q = elim (release_slot q.limit) [
    | none ↦ none
    | some w ↦ some (record q { limit = w; pending = q.pending +ℤ negsuc 0 })
  ]

  pub create : Queue → Queue
  create q = record q { pending = q.pending +ℤ negsuc 0; used = q.used +ℤ pos 1 }

  -- A session ends.
  unfoldable pub release : Queue → Option Queue
  release q = elim (release_slot q.limit) [
    | none ↦ none
    | some w ↦ some (record q { limit = w; used = q.used +ℤ negsuc 0 })
  ]
