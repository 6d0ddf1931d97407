-- ===== src/Protect/Queue/Balance.antt =====
-- The counters of the queue against the slots that its semaphore has handed out.
use selenwright.Prelude.{
  ℕ, suc, ◌+◌, ◌≤◌, ◌<◌, ◌≡◌, refl, Bool, true, false, none, some, pos, negsuc, ◌+ℤ◌, arith,
  Option-cases, inl, inr,
}
use selenwright.Protect.Queue.{Semaphore, Queue, new, has_free_slot, grant, drop, create, release}

module _ (s : Semaphore) where
  -- With `u` sessions running and `p` being started, exactly `u + p` slots are held, and no more
  -- than the limit.
  pub record Balanced (u p : ℕ) (q : Queue s) : Type 0 where
    pub is_used : q.used ≡ pos u
    pub is_pending : q.pending ≡ pos p
    pub holds : s.held q.limit ≡ u + p
    pub capacity : s.capacity q.limit ≡ q.size
    pub within : u + p ≤ q.size

  pub new-Balanced : (size : ℕ) (disabled : Bool) → Balanced 0 0 (new s size disabled)
  unfolding new
  new-Balanced size disabled = ground (arith, s.new-held size, s.new-capacity size)

  pub grant_total :
      (u p : ℕ) (q : Queue s)
      → Balanced u p q
      → u + p < q.size
      → (q' : Queue s) × (grant s q ≡ some q')
        × Balanced u (suc p) q'
        × (q'.queued ≡ q.queued +ℤ negsuc 0)
        × (q'.size ≡ q.size)
  unfolding grant ◌+ℤ◌
  grant_total u p q b free =
      let (w, e, h, c) = s.try_acquire_free q.limit (omega arith) in
      (
        record q { limit = w; queued = q.queued +ℤ negsuc 0; pending = q.pending +ℤ pos 1 },
        ground (arith, e),
        ground (arith, h, c),
        refl,
        refl,
      )

  pub grant_full : (u p : ℕ) (q : Queue s) → Balanced u p q → u + p ≡ q.size → grant s q ≡ none
  unfolding grant
  grant_full u p q b full = ground (arith, s.try_acquire_full q.limit)

  pub drop_total :
      (u p : ℕ) (q : Queue s)
      → Balanced u (suc p) q
      → (q' : Queue s) × (drop s q ≡ some q') × Balanced u p q' × (q'.size ≡ q.size)
  unfolding drop ◌+ℤ◌
  drop_total u p q b =
      let (w, e, h, c) = s.release_held q.limit (omega arith) in
      (
        record q { limit = w; pending = q.pending +ℤ negsuc 0 },
        ground (arith, e),
        ground (arith, h, c),
        refl,
      )

  pub create-Balanced :
      (u p : ℕ) (q : Queue s) → Balanced u (suc p) q → Balanced (suc u) p (create s q)
  unfolding create ◌+ℤ◌
  create-Balanced u p q b = ground arith

  pub release_total :
      (u p : ℕ) (q : Queue s)
      → Balanced (suc u) p q
      → (q' : Queue s) × (release s q ≡ some q') × Balanced u p q' × (q'.size ≡ q.size)
  unfolding release ◌+ℤ◌
  release_total u p q b =
      let (w, e, h, c) = s.release_held q.limit (omega arith) in
      (
        record q { limit = w; used = q.used +ℤ negsuc 0 },
        ground (arith, e),
        ground (arith, h, c),
        refl,
      )

  -- Looking for a free slot leaves the books as they were, and tells whether there is one.
  pub has_free_slot_free :
      (u p : ℕ) (q : Queue s)
      → Balanced u p q
      → u + p < q.size
      → (q' : Queue s) × (has_free_slot s q ≡ some (q', true))
        × Balanced u p q'
        × (q'.size ≡ q.size)
        × (q'.disabled ≡ q.disabled)
        × (q'.queued ≡ q.queued)
  unfolding has_free_slot
  has_free_slot_free u p q b free =
      let (w, e, h, c) = s.try_acquire_free q.limit (omega arith) in
      let (w', e', h', c') = s.release_held w (omega arith) in
      (
        record q { limit = w' },
        ground (arith, e, e'),
        ground (arith, h, h', c, c'),
        refl,
        refl,
        refl,
      )

  pub has_free_slot_full :
      (u p : ℕ) (q : Queue s)
      → Balanced u p q
      → u + p ≡ q.size
      → has_free_slot s q ≡ some (q, false)
  unfolding has_free_slot
  has_free_slot_full u p q b full = ground (arith, s.try_acquire_full q.limit)

  -- A release that no session's end goes with leaves counters that do not fit the sessions.
  pub release-unbalanced :
      (u p : ℕ) (q q' : Queue s) → Balanced u p q → release s q ≡ some q' → ¬ (Balanced u p q')
  unfolding release ◌+ℤ◌
  release-unbalanced u p q q' b e b' = elim (Option-cases (s.release q.limit)) [
    | inl panics ↦ ground (arith, panics, e)
    | inr (w, freed) ↦
        let counted : some (record q { limit = w; used = q.used +ℤ negsuc 0 }) ≡ some q' =
          ground (arith, freed, e) in
        ground (arith, counted, b.is_used, b'.is_used)
  ]
