-- ===== src/Stack/Quoting.antt =====
-- stack_update.go: shellSingleQuote, against how a POSIX shell reads a word.
use selenwright.Prelude.{
  ℕ, ◌≡◌, refl, [], ◌∷◌, ◌++◌, Option, none, some, Str, eqb, if◌then◌else◌, arith, ap, ◌∙◌,
  Bool-cases, inl, inr,
}

-- `strings.ReplaceAll(s, "'", …)`
abbrev escape_quotes : Str → Str
escape_quotes [] = []
escape_quotes (c ∷ s) =
    let rest = escape_quotes s in if eqb c 39 then 39 ∷ 92 ∷ 39 ∷ 39 ∷ rest else c ∷ rest

unfoldable pub shell_single_quote : Str → Str
shell_single_quote s = 39 ∷ escape_quotes s ++ 39 ∷ []

-- Where the shell is in a word: outside of quotes, behind a backslash, or in single quotes.
pub data Mode : Type 0 where
  outside escaped quoted : Mode

abbrev cons : ℕ → Option Str → Option Str
cons c none = none
cons c (some s) = some (c ∷ s)

-- What the shell makes of one word; `none` where the quotes do not end, or where a byte stands outside
-- of them bare, which may mean something else to the shell.
abbrev pub shell_word : Mode → Str → Option Str
shell_word outside [] = some []
shell_word escaped [] = none
shell_word quoted [] = none
shell_word outside (c ∷ s) =
    if eqb c 39 then shell_word quoted s else if eqb c 92 then shell_word escaped s else none
shell_word escaped (c ∷ s) = cons c (shell_word outside s)
shell_word quoted (c ∷ s) = if eqb c 39 then shell_word outside s else cons c (shell_word quoted s)

quoted_escape : (s : Str) → shell_word quoted (escape_quotes s ++ 39 ∷ []) ≡ some s
quoted_escape [] = refl
quoted_escape (c ∷ s) = elim (Bool-cases (eqb c 39)) [
  | inr other ↦ rw other (rw other (ap (cons c) (quoted_escape s)))
  | inl quote ↦
      let same : 39 ≡ c = ground (arith, quote) in
      rw quote (ap (cons 39) (quoted_escape s) ∙ ap (λ d. some (d ∷ s)) same)
]

-- Whatever text is quoted, a shell reads it as one word, which is that text.
pub shell_single_quote-read : (s : Str) → shell_word outside (shell_single_quote s) ≡ some s
unfolding shell_single_quote
shell_single_quote-read s = quoted_escape s
