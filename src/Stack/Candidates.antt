-- ===== src/Stack/Candidates.antt =====
-- stack_versions.go: the tags that a service can be updated to, and the cache of tags.
pub mod Newer
use selenwright.Prelude.{
  ℕ, ◌≤◌, Bool, true, false, List, [], ◌∷◌, ◌++◌, Option, none, some, Str, StrMap, lit, ◌==◌,
  trim_space, is_empty, has_prefix, drop, elem, not, lookup, insert, length, take, ltb, eqb, map,
  ◌&&◌, ◌||◌, if◌then◌else◌, ℤ, ltb_ℤ, pos,
}

-- golang.org/x/mod/semver, and sort.Slice on pairs of strings.
pub record Semver : Type 0 where
  pub is_valid : Str → Bool
  pub canonical : Str → Str
  pub prerelease : Str → Str
  pub compare : Str → Str → ℤ
  pub sort : (Str × Str → Str × Str → Bool) → List (Str × Str) → List (Str × Str)

abbrev drop_dots : Str → Str
drop_dots [] = []
drop_dots (c ∷ s) = if eqb c b'.' then drop_dots s else c ∷ s

-- `^v\.+` becomes `v`.
unfoldable pub strip_leading_dots : Str → Str
strip_leading_dots [] = []
strip_leading_dots (c ∷ s) = if eqb c b'v' then c ∷ drop_dots s else c ∷ s

-- The empty text where the tag is no version.
unfoldable pub normalize_tag : Semver → Str → Str
unfolding strip_leading_dots
normalize_tag v tag =
    let t = trim_space tag in
    if is_empty t
    then []
    else let stripped = strip_leading_dots t in
      let prefixed = if has_prefix stripped (lit "v") then stripped else b'v' ∷ stripped in
      if v.is_valid prefixed then v.canonical prefixed else []

-- Whether a canonical tag may follow the current one.
unfoldable pub may_follow : Semver → Str → Str → Bool
may_follow v current c =
    let allow_pre = not (is_empty current) && not (is_empty (v.prerelease current)) in
    (allow_pre || is_empty (v.prerelease c))
    && (is_empty current || ltb_ℤ (pos 0) (v.compare c current))

-- The loop over the tags; a candidate is the published tag and its canonical form.
unfoldable pub gather_candidates : Semver → Str → List Str → List Str → List (Str × Str)
unfolding normalize_tag may_follow
gather_candidates v current [] seen = []
gather_candidates v current (t ∷ ts) seen =
    let c = normalize_tag v t in
    if is_empty c || elem c seen
    then gather_candidates v current ts seen
    else let rest = gather_candidates v current ts (c ∷ seen) in
      if may_follow v current c then (trim_space t, c) ∷ rest else rest

unfoldable pub pick_candidate_versions : Semver → Str → List Str → ℕ → List Str
unfolding gather_candidates
pick_candidate_versions v current_tag available max =
    let cands =
      v.sort (λ a b. ltb_ℤ (pos 0) (v.compare a.1 b.1))
        (gather_candidates v (normalize_tag v current_tag) available []) in
    map (λ c. c.0) (take max cands)

unfoldable pub find_candidate_by_canonical : Semver → List Str → Str → Option Str
unfolding normalize_tag
find_candidate_by_canonical v [] canon = none
find_candidate_by_canonical v (c ∷ cs) canon =
    if c == canon || normalize_tag v c == canon
    then some c
    else find_candidate_by_canonical v cs canon
