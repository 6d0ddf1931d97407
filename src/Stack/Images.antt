-- ===== src/Stack/Images.antt =====
-- stack_versions.go: references to images.
use selenwright.Prelude.{
  ℕ, ◌≡◌, refl, Bool, true, false, [], ◌∷◌, ◌++◌, Option, none, some, Str, lit, ◌==◌, trim_space,
  contains_any, is_empty, all, any, not, eqb, ◌||◌, ◌&&◌, if◌then◌else◌, arith,
}

pub record ImageRef : Type 0 where
  pub registry : Str
  pub namespace : Str
  pub repo : Str
  pub tag : Str

-- What stands before and behind the first `c`.
unfoldable pub cut_first : ℕ → Str → Option (Str × Str)
cut_first c [] = none
cut_first c (d ∷ s) =
    if eqb d c
    then some ([], s)
    else (elim (cut_first c s) [ none ↦ none | some (before, after) ↦ some (d ∷ before, after) ])

-- What stands before and behind the last `c`.
unfoldable pub cut_last : ℕ → Str → Option (Str × Str)
cut_last c [] = none
cut_last c (d ∷ s) = elim (cut_last c s) [
  | some (before, after) ↦ some (d ∷ before, after)
  | none ↦ if eqb d c then some ([], s) else none
]

-- The registry, and what is left behind it.
unfoldable pub cut_registry : Str → Str × Str
unfolding cut_first
cut_registry r = elim (cut_first b'/' r) [
  | none ↦ (lit "docker.io", r)
  | some (first, rest) ↦
      if not (is_empty rest) && (contains_any first (lit ".:") || first == lit "localhost")
      then (first, rest)
      else (lit "docker.io", r)
]

-- What is left before the tag, and the tag.
unfoldable pub cut_tag : Str → Str × Str
unfolding cut_last
cut_tag r = elim (cut_last b':' r) [
  | none ↦ (r, lit "latest")
  | some (before, after) ↦
      if any (λ c. eqb c b'/') after then (r, lit "latest") else (before, after)
]

-- `none` is the error.
unfoldable pub parse_image_ref : Str → Option ImageRef
unfolding cut_registry cut_tag
parse_image_ref ref =
    let trimmed = trim_space ref in
    if is_empty trimmed
    then none
    else let named : Str = elim (cut_first b'@' trimmed) [
      | none ↦ trimmed
      | some (before, after) ↦ before
    ] in
      let (registry, rest) = cut_registry named in
      let (name, tag) = cut_tag rest in
      let (namespace, repo) : Str × Str = elim (cut_first b'/' name) [
        | none ↦ (lit "library", name)
        | some (before, after) ↦ (before, after)
      ] in
      if is_empty name || is_empty repo || is_empty namespace
      then none
      else some (record { registry = registry; namespace = namespace; repo = repo; tag = tag })

-- The byte does not stand in the text.
abbrev pub lacks : ℕ → Str → Bool
lacks c s = all (λ d. not (eqb d c)) s

cut_first-none : (c : ℕ) (s : Str) → lacks c s ≡ true → cut_first c s ≡ none
unfolding cut_first
cut_first-none c [] h = refl
cut_first-none c (d ∷ s) h = ground (arith, cut_first-none c s)

pub cut_first-append :
    (c : ℕ) (s t : Str) → lacks c s ≡ true → cut_first c (s ++ c ∷ t) ≡ some (s, t)
unfolding cut_first
cut_first-append c [] t h = ground arith
cut_first-append c (d ∷ s) t h = ground (arith, cut_first-append c s t)

cut_last-none : (c : ℕ) (s : Str) → lacks c s ≡ true → cut_last c s ≡ none
unfolding cut_last
cut_last-none c [] h = refl
cut_last-none c (d ∷ s) h = ground (arith, cut_last-none c s)

cut_last-append : (c : ℕ) (s t : Str) → lacks c t ≡ true → cut_last c (s ++ c ∷ t) ≡ some (s, t)
unfolding cut_last
cut_last-append c [] t h = ground (arith, cut_last-none c t)
cut_last-append c (d ∷ s) t h = ground (arith, cut_last-append c s t)

lacks-any : (c : ℕ) (s : Str) → lacks c s ≡ true → any (λ d. eqb d c) s ≡ false
lacks-any c [] h = refl
lacks-any c (d ∷ s) h = ground (arith, lacks-any c s)

abbrev pub print_image_ref : ImageRef → Str
print_image_ref r = r.registry ++ b'/' ∷ ((r.namespace ++ b'/' ∷ r.repo) ++ b':' ∷ r.tag)

-- The parts are such that the printed form can be told apart again.
pub record IsPrintable (r : ImageRef) : Type 0 where
  pub registry_host : (contains_any r.registry (lit ".:") || r.registry == lit "localhost") ≡ true
  pub registry_plain : lacks b'/' r.registry ≡ true
  pub namespace_there : is_empty r.namespace ≡ false
  pub namespace_plain : lacks b'/' r.namespace ≡ true
  pub repo_there : is_empty r.repo ≡ false
  pub tag_slash : lacks b'/' r.tag ≡ true
  pub tag_colon : lacks b':' r.tag ≡ true
  pub no_digest : lacks b'@' (print_image_ref r) ≡ true
  pub no_space : trim_space (print_image_ref r) ≡ print_image_ref r

cut_registry-print :
    (registry rest : Str)
    → (contains_any registry (lit ".:") || registry == lit "localhost") ≡ true
    → lacks b'/' registry ≡ true
    → is_empty rest ≡ false
    → cut_registry (registry ++ b'/' ∷ rest) ≡ (registry, rest)
unfolding cut_registry
cut_registry-print registry rest host plain there =
    ground (arith, cut_first-append b'/' registry rest plain, host, there)

cut_tag-print :
    (name tag : Str)
    → lacks b'/' tag ≡ true
    → lacks b':' tag ≡ true
    → cut_tag (name ++ b':' ∷ tag) ≡ (name, tag)
unfolding cut_tag
cut_tag-print name tag slash colon =
    ground (arith, cut_last-append b':' name tag colon, lacks-any b'/' tag slash)

parse_named :
    (ref : Str) (registry rest name tag namespace repo : Str)
    → is_empty ref ≡ false
    → trim_space ref ≡ ref
    → cut_first b'@' ref ≡ none
    → cut_registry ref ≡ (registry, rest)
    → cut_tag rest ≡ (name, tag)
    → cut_first b'/' name ≡ some (namespace, repo)
    → is_empty name ≡ false
    → is_empty repo ≡ false
    → is_empty namespace ≡ false
    → parse_image_ref ref
      ≡ some (record { registry = registry; namespace = namespace; repo = repo; tag = tag })
unfolding parse_image_ref
parse_named ref registry rest name tag namespace repo there trimmed plain r t n a b c =
    ground (arith, there, trimmed, plain, r, t, n, a, b, c)

nonempty-append : (s t : Str) (c : ℕ) → is_empty (s ++ c ∷ t) ≡ false
nonempty-append [] t c = refl
nonempty-append (d ∷ s) t c = refl

-- A reference that is printed in full, registry, namespace, repository and tag, is read as the same
-- parts, where the registry looks like a host, the namespace and the tag have no slash, the tag has no
-- colon, and nothing has the sign of a digest or space around it.
parse_image_ref-print :
    (r : ImageRef) → IsPrintable r → parse_image_ref (print_image_ref r) ≡ some r
parse_image_ref-print r p =
    let name = r.namespace ++ b'/' ∷ r.repo in
    let rest = name ++ b':' ∷ r.tag in
    parse_named (print_image_ref r) r.registry rest name r.tag r.namespace r.repo
      (nonempty-append r.registry rest b'/') p.no_space
      (cut_first-none b'@' (print_image_ref r) p.no_digest)
      (cut_registry-print r.registry rest p.registry_host p.registry_plain
        (nonempty-append name r.tag b':'))
      (cut_tag-print name r.tag p.tag_slash p.tag_colon)
      (cut_first-append b'/' r.namespace r.repo p.namespace_plain)
      (nonempty-append r.namespace r.repo b'/') p.repo_there p.namespace_there
