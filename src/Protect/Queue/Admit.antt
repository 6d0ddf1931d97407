-- ===== src/Protect/Queue/Admit.antt =====
-- What the chain Try(Check(Protect(next))) does with a session request.
use selenwright.Prelude.{
  ℕ, suc, ◌+◌, ◌<◌, ◌≡◌, Bool, true, false, none, some, ℤ, pos, negsuc, ◌+ℤ◌, arith, if◌then◌else◌,
  ap, ◌∙◌, Bool-cases, inl, inr, subst, ltb,
}
use selenwright.Protect.Queue.{
  Semaphore, Queue, Admission, too_many_requests, queue_full, client_disconnected, accepted, enter,
  disconnect, protect, check, try,
}
use selenwright.Protect.Queue.Balance.{
  Balanced, grant_total, grant_full, has_free_slot_free, has_free_slot_full,
}

up_down : (n : ℤ) → n +ℤ pos 1 +ℤ negsuc 0 ≡ n
unfolding ◌+ℤ◌
up_down n = ground arith

module _ (s : Semaphore) where
  disconnect-enter : (q : Queue s) → disconnect s (enter s q) ≡ q
  unfolding disconnect enter
  disconnect-enter q = ap (λ n. record q { queued = n }) (up_down q.queued)

  enter-Balanced : (u p : ℕ) (q : Queue s) → Balanced s u p q → Balanced s u p (enter s q)
  unfolding enter
  enter-Balanced u p q b = ground arith

  protect_free :
      (u p : ℕ) (q : Queue s)
      → Balanced s u p q
      → u + p < q.size
      → (q' : Queue s) × (protect s q true ≡ some (accepted q'))
        × Balanced s u (suc p) q'
        × (q'.queued ≡ q.queued)
  unfolding protect
  protect_free u p q b free =
      let (q', e, b', waits, _) =
        grant_total s u p (enter s q) (enter-Balanced u p q b) (unfold enter in free) in
      (q', ground (arith, e), b', unfold enter in (waits ∙ up_down q.queued))

  protect_full :
      (u p : ℕ) (q : Queue s) (granted : Bool)
      → Balanced s u p q
      → u + p ≡ q.size
      → protect s q granted ≡ (if granted then none else some (client_disconnected q))
  unfolding protect
  protect_full u p q true b full =
      ground (arith, grant_full s u p (enter s q) (enter-Balanced u p q b) (unfold enter in full))
  protect_full u p q false b full =
      ap (λ (r : Queue s). some (client_disconnected r)) (disconnect-enter q)

  check_free :
      (u p : ℕ) (q : Queue s)
      → Balanced s u p q
      → u + p < q.size
      → (q' : Queue s) × (check s q true ≡ some (accepted q'))
        × Balanced s u (suc p) q'
        × (q'.queued ≡ q.queued)
  unfolding check
  check_free u p q b free =
      let (q₁, e₁, b₁, size₁, _, waits₁) = has_free_slot_free s u p q b free in
      let (q₂, e₂, b₂, waits₂) = protect_free u p q₁ b₁ (omega arith) in
      let (q₃, e₃, b₃, waits₃) = protect_free u p q b free in
      elim (Bool-cases q.disabled) [
        | inl d ↦ (q₂, ground (arith, d, e₁, e₂), b₂, waits₂ ∙ waits₁)
        | inr d ↦ (q₃, ground (arith, d, e₃), b₃, waits₃)
      ]

  -- With a slot free, a request is let through whatever its headers and the mode say.
  try_free :
      (u p : ℕ) (q : Queue s) (no_wait : Bool)
      → Balanced s u p q
      → u + p < q.size
      → (q' : Queue s) × (try s q no_wait true ≡ some (accepted q'))
        × Balanced s u (suc p) q'
        × (q'.queued ≡ q.queued)
  unfolding try
  try_free u p q true b free =
      let (q₁, e₁, b₁, size₁, _, waits₁) = has_free_slot_free s u p q b free in
      let (q₂, e₂, b₂, waits₂) = check_free u p q₁ b₁ (omega arith) in
      (q₂, ground (arith, e₁, e₂), b₂, waits₂ ∙ waits₁)
  try_free u p q false b free = check_free u p q b free

  -- With no slot free, the request is turned away at once when it says that it does not wait, or
  -- when waiting is disabled; otherwise it waits until its client goes away. Nothing changes.
  pub try_full :
      (u p : ℕ) (q : Queue s) (no_wait granted : Bool)
      → Balanced s u p q
      → u + p ≡ q.size
      → try s q no_wait granted ≡ (
          if no_wait
          then some (too_many_requests q)
          else if q.disabled
          then some (queue_full q)
          else if granted
          then none
          else some (client_disconnected q))
  unfolding try check
  try_full u p q no_wait granted b full =
      ground (arith, has_free_slot_full s u p q b full, protect_full u p q granted b full)

  protect_gone : (q : Queue s) → protect s q false ≡ some (client_disconnected q)
  unfolding protect
  protect_gone q = ap (λ (r : Queue s). some (client_disconnected r)) (disconnect-enter q)

  check_gone :
      (u p : ℕ) (q : Queue s)
      → Balanced s u p q
      → u + p < q.size
      → (q' : Queue s) × (check s q false ≡ some (client_disconnected q')) × Balanced s u p q'
  unfolding check
  check_gone u p q b free =
      let (q₁, e₁, b₁, _, _, _) = has_free_slot_free s u p q b free in
      elim (Bool-cases q.disabled) [
        | inl d ↦ (q₁, ground (arith, d, e₁, protect_gone q₁), b₁)
        | inr d ↦ (q, ground (arith, d, protect_gone q), b)
      ]

  -- A client that goes away while it waits leaves the books as they were.
  pub try_gone :
      (u p : ℕ) (q : Queue s) (no_wait : Bool)
      → Balanced s u p q
      → u + p < q.size
      → (q' : Queue s) × (try s q no_wait false ≡ some (client_disconnected q')) × Balanced s u p q'
  unfolding try
  try_gone u p q true b free =
      let (q₁, e₁, b₁, size₁, _, _) = has_free_slot_free s u p q b free in
      let (q₂, e₂, b₂) = check_gone u p q₁ b₁ (omega arith) in (q₂, ground (arith, e₁, e₂), b₂)
  try_gone u p q false b free = check_gone u p q b free

  -- What an answer of the queue says about its books.
  abbrev pub Answers : ℕ → ℕ → Admission (Queue s) → Type 0
  Answers u p (accepted q) = Balanced s u (suc p) q
  Answers u p (too_many_requests q) = Balanced s u p q
  Answers u p (queue_full q) = Balanced s u p q
  Answers u p (client_disconnected q) = Balanced s u p q

  full_answer :
      (u p : ℕ) (q : Queue s) (no_wait granted : Bool) (r : Admission (Queue s))
      → Balanced s u p q
      → try s q no_wait granted ≡ (
          if no_wait
          then some (too_many_requests q)
          else if q.disabled
          then some (queue_full q)
          else if granted
          then none
          else some (client_disconnected q))
      → try s q no_wait granted ≡ some r
      → Answers u p r
  full_answer u p q no_wait granted (accepted q') b full e = ground arith
  full_answer u p q no_wait granted (too_many_requests q') b full e =
      let same : q ≡ q' = ground arith in subst (Balanced s u p) same b
  full_answer u p q no_wait granted (queue_full q') b full e =
      let same : q ≡ q' = ground arith in subst (Balanced s u p) same b
  full_answer u p q no_wait granted (client_disconnected q') b full e =
      let same : q ≡ q' = ground arith in subst (Balanced s u p) same b

  -- Whatever the queue answers, its books are right: an accepted request has one pending slot
  -- more, every other answer takes none.
  pub try-Balanced :
      (u p : ℕ) (q : Queue s) (no_wait granted : Bool) (r : Admission (Queue s))
      → Balanced s u p q
      → try s q no_wait granted ≡ some r
      → Answers u p r
  try-Balanced u p q no_wait granted r b e = elim (Bool-cases (ltb (u + p) q.size)) [
    | inl free ↦ elim (Bool-cases granted) [
      | inl got ↦
          let (q', e', b', _) = try_free u p q no_wait b (ground arith) in
          let same : accepted q' ≡ r = ground (arith, e, e', got) in subst (Answers u p) same b'
      | inr gone ↦
          let (q', e', b') = try_gone u p q no_wait b (ground arith) in
          let same : client_disconnected q' ≡ r = ground (arith, e, e', gone) in
          subst (Answers u p) same b'
    ]
    | inr full ↦
        full_answer u p q no_wait granted r b
          (try_full u p q no_wait granted b (ground (arith, b.within))) e
  ]
