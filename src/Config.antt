-- ===== src/Config.antt =====
-- config/config.go: the catalog of browsers and the choice of a version. `atoi` is strconv.Atoi.
pub mod Choice
use selenwright.Prelude.{
  ℕ, Bool, true, false, List, [], ◌∷◌, Option, none, some, Str, StrMap, lit, ◌==◌, lookup, is_empty,
  equal_fold, has_prefix, split, not, ◌&&◌, if◌then◌else◌, ℤ, ltb_ℤ,
}

-- `Browser` without Image, which may hold any JSON value.
pub record Browser : Type 0 where
  pub port : Str
  pub path : Str
  pub protocol : Str
  pub tmpfs : StrMap Str
  pub volumes : List Str
  pub env : List Str
  pub hosts : List Str
  pub shm_size : ℤ
  pub labels : StrMap Str
  pub sysctl : StrMap Str
  pub mem : Str
  pub cpu : Str
  pub publish_all_ports : Bool

-- A pointer to a browser may be nil.
abbrev pub Catalog : Type 0
Catalog = StrMap (Option Browser)

pub record Versions : Type 0 where
  pub default : Str
  pub versions : Catalog

unfoldable pub is_playwright_browser : Option Browser → Bool
is_playwright_browser none = false
is_playwright_browser (some b) = equal_fold b.protocol (lit "playwright")

abbrev pub equal_ℤ : ℤ → ℤ → Bool
equal_ℤ a b = not (ltb_ℤ a b) && not (ltb_ℤ b a)

-- The two numbers that playwrightMajorMinor prints.
unfoldable pub playwright_major_minor : (Str → Option ℤ) → Str → Option (ℤ × ℤ)
playwright_major_minor atoi version = elim (split b'.' version) [
  | [] ↦ none
  | a ∷ segments ↦ elim segments [
    | [] ↦ none
    | b ∷ rest ↦ elim (atoi a) [
      | none ↦ none
      | some major ↦ elim (atoi b) [ none ↦ none | some minor ↦ some (major, minor) ]
    ]
  ]
]

-- Whether a configured version has the major and minor number that is asked for.
unfoldable pub same_major_minor : (Str → Option ℤ) → ℤ × ℤ → Str → Bool
unfolding playwright_major_minor
same_major_minor atoi (major, minor) version = elim (playwright_major_minor atoi version) [
  | none ↦ false
  | some (a, b) ↦ equal_ℤ a major && equal_ℤ b minor
]

-- The loop of findPlaywrightVersionMatches.
unfoldable pub matches_of : (Str → Option ℤ) → ℤ × ℤ → Catalog → List Str
unfolding is_playwright_browser same_major_minor
matches_of atoi wanted [] = []
matches_of atoi wanted ((v, b) ∷ m) =
    let rest = matches_of atoi wanted m in
    if is_playwright_browser b && same_major_minor atoi wanted v then v ∷ rest else rest

unfoldable pub find_playwright_version_matches : (Str → Option ℤ) → Catalog → Str → List Str
unfolding matches_of
find_playwright_version_matches atoi m version = elim (playwright_major_minor atoi version) [
  | none ↦ []
  | some wanted ↦ matches_of atoi wanted m
]

-- The loop over the versions that start with the one asked for; it stops at the first.
unfoldable pub prefix_match : Str → Catalog → Option (Browser × Str)
unfolding is_playwright_browser
prefix_match version [] = none
prefix_match version ((v, b) ∷ m) =
    if not (is_playwright_browser b) && has_prefix v version
    then (elim b [ none ↦ none | some browser ↦ some (browser, v) ])
    else prefix_match version m

pub record Found : Type 0 where
  pub browser : Option Browser
  pub version : Str
  pub ok : Bool

abbrev pub at_version : Catalog → Str → Option Browser
at_version m v = elim (lookup v m) [ none ↦ none | some b ↦ b ]

-- The last step of Find: exactly one Playwright version decides.
unfoldable pub sole_match : Catalog → Str → List Str → Found
sole_match m version [] = record { browser = none; version = version; ok = false }
sole_match m version (v ∷ []) = record { browser = at_version m v; version = v; ok = true }
sole_match m version (v ∷ w ∷ ws) = record { browser = none; version = version; ok = false }

-- The version that is asked for, or the default where none is.
abbrev pub effective : Versions → Str → Str
effective b version = if is_empty version then b.default else version

unfoldable pub find : (Str → Option ℤ) → StrMap Versions → Str → Str → Found
unfolding prefix_match sole_match find_playwright_version_matches
find atoi browsers name requested = elim (lookup name browsers) [
  | none ↦ record { browser = none; version = []; ok = false }
  | some b ↦
      let version = effective b requested in
      if is_empty version
      then record { browser = none; version = []; ok = false }
      else (elim (lookup version b.versions) [
        | some exact ↦ record { browser = exact; version = version; ok = true }
        | none ↦ elim (prefix_match version b.versions) [
          | some (browser, v) ↦ record { browser = some browser; version = v; ok = true }
          | none ↦
              sole_match b.versions version
                (find_playwright_version_matches atoi b.versions version)
        ]
      ])
]
