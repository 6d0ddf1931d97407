-- ===== src/Playwright/Url.antt =====
-- playwright.go: parsePlaywrightPath. `unescape` is url.PathUnescape.
use selenwright.Prelude.{
  ◌≡◌, Bool, true, false, List, [], ◌∷◌, ◌++◌, Option, none, some, Str, lit, has_prefix, drop,
  length, is_empty, split, not, ◌||◌, if◌then◌else◌, arith, eqb, all, refl,
}

abbrev pub playwright_prefix : Str
playwright_prefix = lit "/playwright/"

-- The segments behind the prefix, decoded.
unfoldable pub decode_segments : (Str → Option Str) → List Str → Option (Str × Str)
decode_segments unescape [] = none
decode_segments unescape (b ∷ []) = none
decode_segments unescape (b ∷ v ∷ []) =
    if is_empty b || is_empty v then none else (elim (unescape b) [
      | none ↦ none
      | some browser ↦ elim (unescape v) [
        | none ↦ none
        | some version ↦
            if is_empty browser || is_empty version then none else some (browser, version)
      ]
    ])
decode_segments unescape (b ∷ v ∷ w ∷ rest) = none

-- `encoded` is URL.EscapedPath(); `none` is the error.
unfoldable pub parse_playwright_path : (Str → Option Str) → Str → Option (Str × Str)
unfolding decode_segments
parse_playwright_path unescape encoded =
    if has_prefix encoded playwright_prefix
    then decode_segments unescape (split b'/' (drop (length playwright_prefix) encoded))
    else none

-- No byte of the text is a slash.
abbrev pub no_slash : Str → Bool
no_slash s = all (λ c. not (eqb c b'/')) s

split-no_slash : (s : Str) → no_slash s ≡ true → split b'/' s ≡ s ∷ []
unfolding split
split-no_slash [] h = refl
split-no_slash (c ∷ s) h = ground (arith, split-no_slash s)

split-append : (s t : Str) → no_slash s ≡ true → split b'/' (s ++ b'/' ∷ t) ≡ s ∷ split b'/' t
unfolding split
split-append [] t h = refl
split-append (c ∷ s) t h = ground (arith, split-append s t)

-- The path that a client builds from a browser and a version, with an escaping that unescape
-- undoes, that leaves no slash and that gives no empty text for either, is read as these two.
pub parse_playwright_path-print :
    (unescape : Str → Option Str) (escape : Str → Str) (browser version : Str)
    → ((s : Str) → unescape (escape s) ≡ some s)
    → ((s : Str) → no_slash (escape s) ≡ true)
    → is_empty browser ≡ false
    → is_empty version ≡ false
    → is_empty (escape browser) ≡ false
    → is_empty (escape version) ≡ false
    → parse_playwright_path unescape (playwright_prefix ++ escape browser ++ b'/' ∷ escape version)
      ≡ some (browser, version)
unfolding parse_playwright_path decode_segments has_prefix
parse_playwright_path-print unescape escape browser version undone plain b v eb ev = ground (
  arith,
  undone browser,
  undone version,
  split-append (escape browser) (escape version) (plain browser),
  split-no_slash (escape version) (plain version),
)
