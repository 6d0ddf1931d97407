-- ===== src/Stack/Hub/Recent.antt =====
-- An answer about tags is never older than the cache allows.
use selenwright.Prelude.{
  ℕ, ◌+◌, ◌<◌, ◌≡◌, refl, true, List, [], ◌∷◌, none, some, Str, lookup, insert, lookup-insert,
  ==_iff, ltb, ◌==◌, Result, ok, err, ◌*◌, arith, All, Bool-cases, Option-cases, inl, inr, ◌⊎◌, ◌∙◌,
  sym, subst, ap,
}
use selenwright.Stack.Images.{cut_first, lacks, cut_first-append}
use selenwright.Stack.Hub.{
  HubTag, HubError, Reply, HubCacheEntry, HubTagCache, do_fetch, ttl_of, key_of, cached,
  fetch_hub_tags,
}

key_of-injective :
    (ns repo ns' repo' : Str)
    → lacks b'/' ns ≡ true
    → lacks b'/' ns' ≡ true
    → key_of ns repo ≡ key_of ns' repo'
    → (ns ≡ ns') × (repo ≡ repo')
key_of-injective ns repo ns' repo' plain plain' same =
    let both : some (ns, repo) ≡ some (ns', repo') =
      sym (cut_first-append b'/' ns repo plain)
      ∙ ap (cut_first b'/') same
      ∙ cut_first-append b'/' ns' repo' plain' in
    (ground (arith, both), ground (arith, both))

-- How long an answer may be served, in nanoseconds: five minutes for tags, half a minute for an error.
abbrev pub kept_for : Result HubError (List HubTag) → ℕ
kept_for (ok tags) = 5 * 60 * 1000000000
kept_for (err e) = 30 * 1000000000

ttl_of-kept_for : (a : Result HubError (List HubTag)) → ttl_of a ≡ kept_for a
ttl_of-kept_for (ok tags) = refl
ttl_of-kept_for (err e) = refl

module _ (path_escape : Str → Str) (base_url : Str) (hub : ℕ → Str → Reply) where
  -- What a fetch that returns at a time gives: `hub` is what Docker Hub answers it.
  abbrev pub fetched_at : ℕ → Str → Str → Result HubError (List HubTag)
  fetched_at t ns repo = do_fetch path_escape base_url (hub t) ns repo

  -- Each entry is what a fetch gave at the time that it says.
  abbrev IsHonest : HubTagCache → Type 0
  IsHonest c =
      (ns repo : Str) (e : HubCacheEntry)
      → lacks b'/' ns ≡ true
      → lookup (key_of ns repo) c ≡ some e
      → e.answer ≡ fetched_at e.fetched ns repo

  -- A call: when it looks into the cache and when its fetch returns, if it needs one, and its arguments.
  abbrev pub Call : Type 0
  Call = ℕ × ℕ × Str × Str

  abbrev pub call : Call → HubTagCache → HubTagCache × Result HubError (List HubTag)
  call (now, done, ns, repo) c =
      fetch_hub_tags (fetched_at done ns repo) now done (key_of ns repo) c

  abbrev pub calls : List Call → HubTagCache → HubTagCache
  calls [] c = c
  calls (k ∷ ks) c = calls ks (call k c).0

  insert-IsHonest :
      (done : ℕ) (ns repo : Str) (c : HubTagCache)
      → lacks b'/' ns ≡ true
      → IsHonest c
      → IsHonest
          (insert (key_of ns repo) (record { answer = fetched_at done ns repo; fetched = done }) c)
  insert-IsHonest done ns repo c plain h ns' repo' e plain' found =
      let entry : HubCacheEntry = record { answer = fetched_at done ns repo; fetched = done } in
      elim (Bool-cases (key_of ns repo == key_of ns' repo')) [
        | inr apart ↦ h ns' repo' e plain' (
            ground (arith, found, apart, lookup-insert (key_of ns repo) (key_of ns' repo') entry c))
        | inl same ↦
            let (n, r) =
              key_of-injective ns repo ns' repo' plain plain'
                ((==_iff (key_of ns repo) (key_of ns' repo')).0 same) in
            let stored : some entry ≡ some e =
              ground
                (arith, found, same, lookup-insert (key_of ns repo) (key_of ns' repo') entry c) in
            let it : entry ≡ e = ground (arith, stored) in
            subst (λ x. x.answer ≡ fetched_at x.fetched ns' repo') it
              (ap (λ x. fetched_at done x repo) n ∙ ap (λ x. fetched_at done ns' x) r)
      ]

  call-kept :
      (now done : ℕ) (ns repo : Str) (c : HubTagCache) (answer : Result HubError (List HubTag))
      → cached now (key_of ns repo) c ≡ some answer
      → call (now, done, ns, repo) c ≡ (c, answer)
  unfolding fetch_hub_tags
  call-kept now done ns repo c answer young = ground (arith, young)

  call-fetched :
      (now done : ℕ) (ns repo : Str) (c : HubTagCache)
      → cached now (key_of ns repo) c ≡ none
      → let fresh = fetched_at done ns repo in
        call (now, done, ns, repo) c
        ≡ (insert (key_of ns repo) (record { answer = fresh; fetched = done }) c, fresh)
  unfolding fetch_hub_tags
  call-fetched now done ns repo c old = ground (arith, old)

  cached-young :
      (now : ℕ) (key : Str) (c : HubTagCache) (answer : Result HubError (List HubTag))
      → cached now key c ≡ some answer
      → (e : HubCacheEntry) × (lookup key c ≡ some e)
        × (e.answer ≡ answer)
        × (now < e.fetched + ttl_of answer)
  unfolding cached
  cached-young now key c answer h = elim (Option-cases (lookup key c)) [
    | inl missing ↦ absurd (ground (arith, h, missing))
    | inr (e, found) ↦ elim (Bool-cases (ltb now (e.fetched + ttl_of e.answer))) [
      | inr old ↦ absurd (ground (arith, h, found, old))
      | inl young ↦
          let same : e.answer ≡ answer = ground (arith, h, found, young) in
          let soon : now < e.fetched + ttl_of e.answer = ground (arith, young) in
          (e, found, same, subst (λ a. now < e.fetched + ttl_of a) same soon)
    ]
  ]

  call-IsHonest :
      (now done : ℕ) (ns repo : Str) (c : HubTagCache)
      → lacks b'/' ns ≡ true
      → IsHonest c
      → IsHonest (call (now, done, ns, repo) c).0
  call-IsHonest now done ns repo c plain h = elim (Option-cases (cached now (key_of ns repo) c)) [
    | inr (answer, young) ↦
        subst (λ r. IsHonest r.0) (sym (call-kept now done ns repo c answer young)) h
    | inl old ↦
        subst (λ r. IsHonest r.0) (sym (call-fetched now done ns repo c old))
          (insert-IsHonest done ns repo c plain h)
  ]

  calls-IsHonest :
      (ks : List Call) (c : HubTagCache)
      → All (λ k. lacks b'/' k.2 ≡ true) ks
      → IsHonest c
      → IsHonest (calls ks c)
  calls-IsHonest [] c plain h = h
  calls-IsHonest ((now, done, ns, repo) ∷ ks) c (p, plain) h =
      calls-IsHonest ks (call (now, done, ns, repo) c).0 plain
        (call-IsHonest now done ns repo c p h)

  -- After any calls, one after the other, from an empty cache, for namespaces without a slash, a call
  -- answers with what a fetch of the same repository gave: its own, or one that was made no longer ago than an answer of
  -- its kind is kept, five minutes for tags and half a minute for an error.
  pub calls-recent :
      (ks : List Call) (now done : ℕ) (ns repo : Str)
      → All (λ k. lacks b'/' k.2 ≡ true) ks
      → lacks b'/' ns ≡ true
      → let answer = (call (now, done, ns, repo) (calls ks [])).1 in
        (t : ℕ) × (answer ≡ fetched_at t ns repo) × ((t ≡ done) ⊎ (now < t + kept_for answer))
  unfolding lookup
  calls-recent ks now done ns repo plain here =
      let c = calls ks [] in
      let honest = calls-IsHonest ks [] plain (λ n r e p found. absurd (ground (arith, found))) in
      let Recent : Result HubError (List HubTag) → Type 0 = λ answer.
        (t : ℕ) × (answer ≡ fetched_at t ns repo) × ((t ≡ done) ⊎ (now < t + kept_for answer)) in
      elim (Option-cases (cached now (key_of ns repo) c)) [
        | inl old ↦
            subst (λ r. Recent r.1) (sym (call-fetched now done ns repo c old))
              (done, refl, inl refl)
        | inr (answer, kept) ↦
            let (e, found, same, soon) = cached-young now (key_of ns repo) c answer kept in
            subst (λ r. Recent r.1) (sym (call-kept now done ns repo c answer kept))
              (
                e.fetched,
                sym same ∙ honest ns repo e here found,
                inr (ground (arith, soon, ttl_of-kept_for answer)),
              )
      ]
