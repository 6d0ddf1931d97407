-- ===== src/Prelude/Paths.antt =====
-- path.Clean and path.Join, which are also filepath.Clean and filepath.Join where the separator
-- is the slash.

use mathlib.Core.Bool.{Bool, true, false, ◌||◌}
use mathlib.Core.List.{List, [], ◌∷◌, ◌++◌, reverse}
use selenwright.Prelude.Tests.{eqb, if◌then◌else◌}
use selenwright.Prelude.Lists.{is_empty}
use selenwright.Prelude.Text.{Str, lit, ◌==◌, split, join}

abbrev pub dot : Str
dot = lit "."

abbrev pub dot_dot : Str
dot_dot = lit ".."

abbrev pub slash : Str
slash = lit "/"

unfoldable pub is_abs : Str → Bool
is_abs [] = false
is_abs (c ∷ s) = eqb c b'/'

-- One element of the path onto the stack of those before it, the last of them at the head.
unfoldable pub clean_up : Bool → List Str → List Str
clean_up rooted [] = if rooted then [] else dot_dot ∷ []
clean_up rooted (s ∷ ss) = if s == dot_dot then dot_dot ∷ s ∷ ss else ss

unfoldable pub clean_step : Bool → List Str → Str → List Str
unfolding clean_up
clean_step rooted stack part =
    if is_empty part || part == dot
    then stack
    else if part == dot_dot
    then clean_up rooted stack
    else part ∷ stack

unfoldable pub clean_parts : Bool → List Str → List Str → List Str
clean_parts rooted stack [] = reverse stack
clean_parts rooted stack (p ∷ ps) = clean_parts rooted (clean_step rooted stack p) ps

unfoldable pub print_path : Bool → List Str → Str
print_path true parts = b'/' ∷ join b'/' parts
print_path false [] = dot
print_path false (p ∷ ps) = join b'/' (p ∷ ps)

unfoldable pub clean : Str → Str
unfolding is_abs clean_parts print_path clean_step
clean path = print_path (is_abs path) (clean_parts (is_abs path) [] (split b'/' path))

-- `Join(a, b)`
unfoldable pub join_path : Str → Str → Str
join_path a b =
    if is_empty a
    then (if is_empty b then [] else clean b)
    else if is_empty b
    then clean a
    else clean (a ++ b'/' ∷ b)
