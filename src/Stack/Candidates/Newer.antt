-- ===== src/Stack/Candidates/Newer.antt =====
-- The candidates are published, newer than the current version, and no more than asked for.
use selenwright.Prelude.{
  ℕ, zero, suc, ◌≡◌, ◌≤◌, refl, Bool, true, false, List, [], ◌∷◌, Str, elem, is_empty, map, take,
  length, trim_space, ==_refl, ◌||◌, arith, All, Bool-cases, inl, inr, pos, ltb_ℤ, length-take-le,
}
use selenwright.Stack.Candidates.{
  Semver, normalize_tag, may_follow, gather_candidates, pick_candidate_versions,
}

-- The candidate is a published tag as it is printed, its canonical form is given and may follow.
abbrev pub IsCandidate : Semver → Str → List Str → Str → Type 0
IsCandidate v current available published =
    (t : Str) × (elem t available ≡ true)
    × (published ≡ trim_space t)
    × (is_empty (normalize_tag v t) ≡ false)
    × (may_follow v current (normalize_tag v t) ≡ true)

gathered-All :
    (v : Semver) (current : Str) (available ts seen : List Str)
    → ((t : Str) → elem t ts ≡ true → elem t available ≡ true)
    → All (λ c. IsCandidate v current available c.0) (gather_candidates v current ts seen)
unfolding gather_candidates elem
gathered-All v current available [] seen h = tt
gathered-All v current available (t ∷ ts) seen h =
    let c = normalize_tag v t in
    let later : (u : Str) → elem u ts ≡ true → elem u available ≡ true =
      λ u e. h u (ground (arith, e)) in
    elim (Bool-cases (is_empty c || elem c seen)) [
      | inl skipped ↦ rw skipped (gathered-All v current available ts seen later)
      | inr fresh ↦ elim (Bool-cases (may_follow v current c)) [
        | inr old ↦ rw (fresh, old) (gathered-All v current available ts (c ∷ seen) later)
        | inl follows ↦
            rw (fresh, follows)
              (
                (t, h t (ground (arith, ==_refl t)), refl, ground (arith, fresh), follows),
                gathered-All v current available ts (c ∷ seen) later,
              )
      ]
    ]

All-take {ℓ κ} : {A : Type ℓ} (P : A → Type κ) (n : ℕ) (xs : List A) → All P xs → All P (take n xs)
All-take P zero xs h = tt
All-take P (suc n) [] h = tt
All-take P (suc n) (x ∷ xs) (p, h) = (p, All-take P n xs h)

All-firsts :
    (P : Str → Type 0) (cs : List (Str × Str)) → All (λ c. P c.0) cs → All P (map (λ c. c.0) cs)
All-firsts P [] h = tt
All-firsts P (c ∷ cs) (p, h) = (p, All-firsts P cs h)

length-map {ℓ κ} :
    {A : Type ℓ} {B : Type κ} (f : A → B) (xs : List A) → length (map f xs) ≡ length xs
length-map f [] = refl
length-map f (x ∷ xs) = ground (arith, length-map f xs)

-- sort.Slice rearranges: what holds of every element holds of every element after it.
abbrev pub Rearranges : Semver → Type 1
Rearranges v =
    (lt : Str × Str → Str × Str → Bool) (P : Str × Str → Type 0) (cs : List (Str × Str))
    → All P cs
    → All P (v.sort lt cs)

-- Where sorting rearranges: at most `max` tags are picked, and each is one that is published, as it is
-- published but for space around it, a version, strictly newer than the current tag where that is a
-- version, and no pre-release unless the current tag is one.
pub pick_candidate_versions-newer :
    (v : Semver) (current_tag : Str) (available : List Str) (max : ℕ)
    → Rearranges v
    → (length (pick_candidate_versions v current_tag available max) ≤ max)
      × All
          (IsCandidate v (normalize_tag v current_tag) available)
          (pick_candidate_versions v current_tag available max)
unfolding pick_candidate_versions
pick_candidate_versions-newer v current_tag available max fair =
    let current = normalize_tag v current_tag in
    let lt : Str × Str → Str × Str → Bool = λ a b. ltb_ℤ (pos 0) (v.compare a.1 b.1) in
    let sorted = v.sort lt (gather_candidates v current available []) in
    let P : Str × Str → Type 0 = λ c. IsCandidate v current available c.0 in
    (
      omega (arith, length-map (λ c. c.0) (take max sorted), length-take-le max sorted),
      All-firsts (IsCandidate v current available) (take max sorted) (
          All-take P max sorted (
            fair lt P (gather_candidates v current available [])
              (gathered-All v current available available [] (λ t e. e)))),
    )
