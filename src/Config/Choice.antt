-- ===== src/Config/Choice.antt =====
-- What Find chooses.
use selenwright.Prelude.{
  ◌≡◌, refl, true, false, List, [], ◌∷◌, Option, none, some, Str, StrMap, ==_iff, lookup, is_empty,
  has_prefix, not, ◌&&◌, ℤ, KeysNodup, arith, Bool-cases, Option-cases, inl, inr, ◌⊎◌, subst, ap,
}
use selenwright.Config.{
  Browser, Catalog, Versions, is_playwright_browser, playwright_major_minor, same_major_minor,
  matches_of, find_playwright_version_matches, prefix_match, Found, sole_match, effective, find,
  at_version,
}

-- Why a version of the catalog answers a request for `wanted`: it is that version, or begins with
-- it, or has the same major and minor number and is a Playwright browser.
abbrev pub Chooses : (Str → Option ℤ) → Catalog → Str → Str → Option Browser → Type 0
Chooses atoi m wanted v b =
    (lookup v m ≡ some b)
    × ((v ≡ wanted)
        ⊎ ((is_playwright_browser b ≡ false) × (has_prefix v wanted ≡ true))
        ⊎ ((is_playwright_browser b ≡ true)
            × ((mm : ℤ × ℤ) × (playwright_major_minor atoi wanted ≡ some mm)
                × (same_major_minor atoi mm v ≡ true))))

prefix_match-lookup :
    (wanted : Str) (m : Catalog) (b : Browser) (v : Str)
    → KeysNodup m
    → prefix_match wanted m ≡ some (b, v)
    → (lookup v m ≡ some (some b))
      × (is_playwright_browser (some b) ≡ false)
      × (has_prefix v wanted ≡ true)
unfolding prefix_match lookup
prefix_match-lookup wanted [] b v n e = cc
prefix_match-lookup wanted ((k, none) ∷ m) b v n e =
    elim (Bool-cases (not (is_playwright_browser none) && has_prefix k wanted)) [
      | inl here ↦ absurd (ground (arith, here))
      | inr other ↦
          let (l, p, q) = prefix_match-lookup wanted m b v n.1 (ground (arith, other)) in
          (ground (arith, l, n.0, ==_iff k v), p, q)
    ]
prefix_match-lookup wanted ((k, some c) ∷ m) b v n e =
    elim (Bool-cases (not (is_playwright_browser (some c)) && has_prefix k wanted)) [
      | inl here ↦
          let same : k ≡ v = ground (arith, here) in
          let it : c ≡ b = ground (arith, here) in
          (
            ground (arith, same, it, (==_iff k v).1 same),
            subst (λ x. is_playwright_browser (some x) ≡ false) it (ground (arith, here)),
            subst (λ x. has_prefix x wanted ≡ true) same (ground (arith, here)),
          )
      | inr other ↦
          let (l, p, q) = prefix_match-lookup wanted m b v n.1 (ground (arith, other)) in
          (ground (arith, l, n.0, ==_iff k v), p, q)
    ]

matches_of-lookup :
    (atoi : Str → Option ℤ) (mm : ℤ × ℤ) (m : Catalog) (v : Str) (vs : List Str)
    → KeysNodup m
    → matches_of atoi mm m ≡ v ∷ vs
    → (b : Option Browser) × (lookup v m ≡ some b)
      × (is_playwright_browser b ≡ true)
      × (same_major_minor atoi mm v ≡ true)
unfolding matches_of lookup
matches_of-lookup atoi mm [] v vs n e = absurd (cc)
matches_of-lookup atoi mm ((k, c) ∷ m) v vs n e =
    elim (Bool-cases (is_playwright_browser c && same_major_minor atoi mm k)) [
      | inl here ↦
          let same : k ≡ v = ground (arith, here) in
          (
            c,
            ground (arith, same, (==_iff k v).1 same),
            ground (arith, here),
            subst (λ x. same_major_minor atoi mm x ≡ true) same (ground (arith, here)),
          )
      | inr other ↦
          let (b, l, p, q) = matches_of-lookup atoi mm m v vs n.1 (ground (arith, other)) in
          (b, ground (arith, l, n.0, ==_iff k v), p, q)
    ]

sole_match-one :
    (m : Catalog) (wanted v : Str) (b : Option Browser) (vs : List Str)
    → sole_match m wanted vs ≡ record { browser = b; version = v; ok = true }
    → (vs ≡ v ∷ []) × (at_version m v ≡ b)
unfolding sole_match
sole_match-one m wanted v b [] e = absurd (ground arith)
sole_match-one m wanted v b (x ∷ []) e =
    let same : x ≡ v = ap (λ (f : Found). f.version) e in
    let it : at_version m x ≡ b = ap (λ (f : Found). f.browser) e in
    (ap (λ y. y ∷ []) same, subst (λ y. at_version m y ≡ b) same it)
sole_match-one m wanted v b (x ∷ y ∷ vs) e = absurd (ground arith)

playwright-Chooses :
    (atoi : Str → Option ℤ) (m : Catalog) (wanted v : Str) (b : Option Browser)
    → KeysNodup m
    → sole_match m wanted (find_playwright_version_matches atoi m wanted)
      ≡ record { browser = b; version = v; ok = true }
    → Chooses atoi m wanted v b
unfolding find_playwright_version_matches
playwright-Chooses atoi m wanted v b n e =
    let (one, at) = sole_match-one m wanted v b (find_playwright_version_matches atoi m wanted) e in
    elim (Option-cases (playwright_major_minor atoi wanted)) [
      | inl unversioned ↦ absurd (ground (arith, one, unversioned))
      | inr (mm, versioned) ↦
          let (c, l, p, q) = matches_of-lookup atoi mm m v [] n (ground (arith, one, versioned)) in
          let it : c ≡ b = ground (arith, l, at) in
          (rw (← it) l, inr (inr (rw (← it) p, (mm, versioned, q))))
    ]

-- Where Find answers, for a browser whose versions are distinct, the version is one of the
-- browser's and the answer is what the catalog has for it; and it is the version that was asked
-- for or the default, or begins with it and is no Playwright browser, or is a Playwright browser
-- with the same major and minor number.
pub find-Chooses :
    (atoi : Str → Option ℤ) (browsers : StrMap Versions) (name requested v : Str)
    (versions : Versions) (b : Option Browser)
    → lookup name browsers ≡ some versions
    → KeysNodup versions.versions
    → find atoi browsers name requested ≡ record { browser = b; version = v; ok = true }
    → Chooses atoi versions.versions (effective versions requested) v b
unfolding find
find-Chooses atoi browsers name requested v versions b known n e =
    let wanted = effective versions requested in
    elim (Bool-cases (is_empty wanted)) [
      | inl nothing ↦ absurd (ground (arith, known, nothing))
      | inr something ↦ elim (Option-cases (lookup wanted versions.versions)) [
        | inr (exact, there) ↦
            let same : wanted ≡ v = ground (arith, known, something, there) in
            let it : exact ≡ b = ground (arith, known, something, there) in
            subst (λ x. Chooses atoi versions.versions wanted x b) same
              (subst (λ x. Chooses atoi versions.versions wanted wanted x) it (there, inl refl))
        | inl missing ↦ elim (Option-cases (prefix_match wanted versions.versions)) [
          | inr ((c, w), begins) ↦
              let same : w ≡ v = ground (arith, known, something, missing, begins) in
              let it : some c ≡ b = ground (arith, known, something, missing, begins) in
              let (l, p, q) = prefix_match-lookup wanted versions.versions c w n begins in
              subst (λ x. Chooses atoi versions.versions wanted x b) same
                (subst (λ x. Chooses atoi versions.versions wanted w x) it (l, inr (inl (p, q))))
          | inl none_begins ↦
              playwright-Chooses atoi versions.versions wanted v b n
                (ground (arith, known, something, missing, none_begins))
        ]
      ]
    ]
