-- ===== src/Playwright/Frames/Bounds.antt =====
-- What the parameters of a frame can put into the log.
use selenwright.Prelude.{
  ℕ, zero, suc, ◌+◌, ◌≤◌, ◌≡◌, refl, Bool, true, false, List, [], ◌∷◌, ◌++◌, Str, length, take, all,
  is_empty, is_space, join, push_first, ltb, eqb, not, ◌&&◌, arith, All, length-append,
  length-take-le, Bool-cases, inl, inr,
}
use selenwright.Playwright.Frames.{
  words, param_text, one_line, shorten, Params, playwright_parts, extract_playwright_params,
  pw_interesting_params,
}

-- No byte ends the line.
abbrev pub unbroken : Str → Bool
unbroken s = all (λ c. not (eqb c 10) && not (eqb c 13)) s

unbroken-append : (s t : Str) → unbroken s ≡ true → unbroken t ≡ true → unbroken (s ++ t) ≡ true
unbroken-append [] t h k = k
unbroken-append (c ∷ s) t h k = ground (arith, unbroken-append s t)

unbroken-take : (n : ℕ) (s : Str) → unbroken s ≡ true → unbroken (take n s) ≡ true
unbroken-take zero s h = refl
unbroken-take (suc n) [] h = refl
unbroken-take (suc n) (c ∷ s) h = ground (arith, unbroken-take n s)

abbrev Unbroken : Str → Type 0
Unbroken s = unbroken s ≡ true

join-unbroken : (ss : List Str) → All Unbroken ss → unbroken (join b' ' ss) ≡ true
unfolding join
join-unbroken [] h = refl
join-unbroken (s ∷ []) h = h.0
join-unbroken (s ∷ t ∷ ss) (p, h) =
    unbroken-append s (b' ' ∷ join b' ' (t ∷ ss)) p (ground (arith, join-unbroken (t ∷ ss) h))

push_first-Unbroken :
    (c : ℕ) (ss : List Str) → is_space c ≡ false → All Unbroken ss → All Unbroken (push_first c ss)
unfolding is_space
push_first-Unbroken c [] e h = (ground (arith, e), tt)
push_first-Unbroken c (s ∷ ss) e (p, h) = (ground (arith, e, p), h)

words-Unbroken : (inside : Bool) (s : Str) → All Unbroken (words inside s)
unfolding words
words-Unbroken false [] = tt
words-Unbroken true [] = (refl, tt)
words-Unbroken false (c ∷ s) =
    ground
      (arith, words-Unbroken false s, push_first-Unbroken c (words true s), words-Unbroken true s)
words-Unbroken true (c ∷ s) =
    ground
      (arith, words-Unbroken false s, push_first-Unbroken c (words true s), words-Unbroken true s)

one_line-unbroken : (s : Str) → unbroken (one_line s) ≡ true
unfolding one_line
one_line-unbroken s = join-unbroken (words false s) (words-Unbroken false s)

abbrev ellipsis : Str
ellipsis = b'.' ∷ b'.' ∷ b'.' ∷ []

length-cut : (t : Str) → length t ≤ 117 → length (t ++ ellipsis) ≤ 120
length-cut t h = omega (arith, length-append t ellipsis, h)

not_longer : (n m : ℕ) → ltb n m ≡ false → m ≤ n
not_longer n m h = ground arith

length-shorten : (s : Str) → length (shorten s) ≤ 120
unfolding shorten
length-shorten s = elim (Bool-cases (ltb 120 (length s))) [
  | inl long ↦ rw long (length-cut (take 117 s) (length-take-le 117 s))
  | inr short ↦ rw short (not_longer 120 (length s) short)
]

shorten-unbroken : (s : Str) → unbroken s ≡ true → unbroken (shorten s) ≡ true
unfolding shorten
shorten-unbroken s h =
    let cut = unbroken-append (take 117 s) ellipsis (unbroken-take 117 s h) refl in
    elim (Bool-cases (ltb 120 (length s))) [ inl long ↦ rw long cut | inr short ↦ rw short h ]

-- The room for the keys: each with its sign, its value and a space.
abbrev pub room : List Str → ℕ
room [] = 0
room (key ∷ keys) = length key + 122 + room keys

length-join-cons :
    (s : Str) (ss : List Str) → length (join b' ' (s ∷ ss)) ≤ length s + 1 + length (join b' ' ss)
unfolding join
length-join-cons s [] = omega arith
length-join-cons s (t ∷ ss) = omega (arith, length-append s (b' ' ∷ join b' ' (t ∷ ss)))

abbrev Fits : Params → List Str → Type 0
Fits params keys =
    All Unbroken (playwright_parts params keys)
    × (length (join b' ' (playwright_parts params keys)) ≤ room keys)

playwright_parts-Fits : (params : Params) (keys : List Str) → All Unbroken keys → Fits params keys
unfolding playwright_parts join
playwright_parts-Fits params [] h = (tt, omega arith)
playwright_parts-Fits params (key ∷ keys) (k, h) =
    let (lines, short) = playwright_parts-Fits params keys h in
    let value = shorten (one_line (param_text params key)) in
    let part = key ++ b'=' ∷ value in
    let rest = playwright_parts params keys in
    elim (Bool-cases (is_empty (param_text params key))) [
      | inl missing ↦ rw missing (lines, omega (arith, short))
      | inr there ↦ rw there (
        (
          unbroken-append key (b'=' ∷ value) k (
              ground (
                arith,
                shorten-unbroken (one_line (param_text params key))
                    (one_line-unbroken (param_text params key)),
              )),
          lines,
        ),
        omega (
          arith,
          length-join-cons part rest,
          length-append key (b'=' ∷ value),
          length-shorten (one_line (param_text params key)),
          short,
        ),
      )
    ]

-- Whatever the parameters of a frame hold, the text made of them has at most 1018 bytes and no line
-- break, so that a frame's parameters stay on one line of the log.
pub extract_playwright_params-fits :
    (params : Params)
    → (length (extract_playwright_params params) ≤ 1018)
      × (unbroken (extract_playwright_params params) ≡ true)
unfolding extract_playwright_params
extract_playwright_params-fits params =
    let (lines, short) =
      playwright_parts-Fits params pw_interesting_params
        (refl, (refl, (refl, (refl, (refl, (refl, (refl, (refl, tt)))))))) in
    (short, join-unbroken (playwright_parts params pw_interesting_params) lines)
