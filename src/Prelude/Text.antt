-- ===== src/Prelude/Text.antt =====
-- Go strings as lists of bytes, and what the source uses of the package `strings`.
use Prim.Native.Nat.{ℕ, ◌+◌}
use Prim.Native.Char.{code}
use Prim.Native.String.{String}
use mathlib.Core.Path.{◌≡◌, refl}
use mathlib.Core.Logic.{◌↔◌}
use mathlib.Core.Bool.{Bool, true, false, ◌&&◌, ◌||◌}
use mathlib.Core.List.{List, [], ◌∷◌, ◌++◌, map, reverse}
use native.Mathlib.Omega.{arith}
use selenwright.Prelude.Tests.{leb, eqb, if◌then◌else◌}
use selenwright.Prelude.Lists.{any}

abbrev pub Str : Type 0
Str = List ℕ

-- A literal of the source, all of them ASCII.
abbrev pub lit : String → Str
lit String.[] = []
lit (String.◌∷◌ c s) = code c ∷ lit s

infix 50 ◌==◌
unfoldable pub ◌==◌ : Str → Str → Bool
[] == [] = true
[] == (y ∷ ys) = false
(x ∷ xs) == [] = false
(x ∷ xs) == (y ∷ ys) = eqb x y && (xs == ys)

==_sound : (s t : Str) → (s == t) ≡ true → s ≡ t
unfolding ◌==◌
==_sound [] [] h = refl
==_sound [] (y ∷ ys) h = cc
==_sound (x ∷ xs) [] h = cc
==_sound (x ∷ xs) (y ∷ ys) h = ground (arith, ==_sound xs ys)

pub ==_refl : (s : Str) → (s == s) ≡ true
unfolding ◌==◌
==_refl [] = refl
==_refl (x ∷ xs) = ground (arith, ==_refl xs)

pub ==_iff : (s t : Str) → ((s == t) ≡ true) ↔ (s ≡ t)
==_iff s t = (==_sound s t, λ e. rw e (==_refl t))

-- Membership in a slice of strings, or in a Go map used as a set.
unfoldable pub elem : Str → List Str → Bool
elem s [] = false
elem s (t ∷ ts) = t == s || elem s ts

pub elem-append : (s : Str) (xs ys : List Str) → elem s (xs ++ ys) ≡ (elem s xs || elem s ys)
unfolding elem
elem-append s [] ys = refl
elem-append s (x ∷ xs) ys = ground (arith, elem-append s xs ys)

-- `strings.HasPrefix(s, p)`
unfoldable pub has_prefix : Str → Str → Bool
has_prefix s [] = true
has_prefix [] (p ∷ ps) = false
has_prefix (c ∷ s) (p ∷ ps) = eqb c p && has_prefix s ps

pub has_prefix_append : (p s : Str) → has_prefix (p ++ s) p ≡ true
unfolding has_prefix
has_prefix_append [] s = refl
has_prefix_append (c ∷ p) s = ground (arith, has_prefix_append p s)

-- `strings.HasSuffix(s, p)`
unfoldable pub has_suffix : Str → Str → Bool
unfolding has_prefix
has_suffix s p = has_prefix (reverse s) (reverse p)

-- `strings.ContainsAny(s, chars)`
unfoldable pub contains_any : Str → Str → Bool
contains_any s chars = any (λ c. any (eqb c) chars) s

-- `unicode.IsSpace` on the ASCII range, where `strings.TrimSpace` trims.
unfoldable pub is_space : ℕ → Bool
is_space c = eqb c 32 || (leb 9 c && leb c 13)

unfoldable pub trim_left : Str → Str
unfolding is_space
trim_left [] = []
trim_left (c ∷ s) = if is_space c then trim_left s else c ∷ s

unfoldable pub trim_space : Str → Str
unfolding trim_left
trim_space s = reverse (trim_left (reverse (trim_left s)))

-- `strings.ToLower` on ASCII.
abbrev pub lower : ℕ → ℕ
lower c = if leb b'A' c && leb c b'Z' then c + 32 else c

abbrev pub to_lower : Str → Str
to_lower s = map lower s

-- `strings.EqualFold` on ASCII.
unfoldable pub equal_fold : Str → Str → Bool
unfolding ◌==◌
equal_fold s t = to_lower s == to_lower t

-- `strings.Split(s, sep)` for a separator of one byte: never the empty slice.
abbrev pub push_first : ℕ → List Str → List Str
push_first c [] = (c ∷ []) ∷ []
push_first c (s ∷ ss) = (c ∷ s) ∷ ss

unfoldable pub split : ℕ → Str → List Str
split sep [] = [] ∷ []
split sep (c ∷ s) = if eqb c sep then [] ∷ split sep s else push_first c (split sep s)

-- `strings.Join(ss, sep)` for a separator of one byte.
unfoldable pub join : ℕ → List Str → Str
join sep [] = []
join sep (s ∷ []) = s
join sep (s ∷ t ∷ ss) = s ++ sep ∷ join sep (t ∷ ss)
