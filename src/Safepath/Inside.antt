-- ===== src/Safepath/Inside.antt =====
-- What Join lets through stays inside its root.
use selenwright.Prelude.{
  ℕ, ◌≡◌, ◌≢◌, refl, true, false, List, [], ◌∷◌, ◌++◌, reverse, Str, ◌==◌, ==_iff, is_empty, is_abs,
  clean, clean_parts, clean_step, print_path, join_path, has_prefix, not, split, push_first, join,
  dot, dot_dot, any, eqb, ◌∙◌, ok, ◌&&◌, All, arith, Bool-cases, inl, inr, ◌⊎◌, lit, subst,
}
use mathlib.Core.List.{reverse_aux, append_assoc}
use selenwright.Safepath.{join_below}

-- An element of a path with no special meaning: it is neither empty nor `.` nor `..`, and has no
-- slash.
abbrev pub Plain : Str → Type 0
Plain p = (is_empty p ≡ false) × (p ≢ dot) × (p ≢ dot_dot) × (any (λ c. eqb c b'/') p ≡ false)

abbrev NoSlash : Str → Type 0
NoSlash p = any (λ c. eqb c b'/') p ≡ false

push_first-NoSlash :
    (c : ℕ) (ss : List Str) → eqb c b'/' ≡ false → All NoSlash ss → All NoSlash (push_first c ss)
push_first-NoSlash c [] h a = (ground arith, tt)
push_first-NoSlash c (s ∷ ss) h a = (ground (arith, a.0), a.1)

split-NoSlash : (s : Str) → All NoSlash (split b'/' s)
unfolding split
split-NoSlash [] = (refl, tt)
split-NoSlash (c ∷ s) = elim (Bool-cases (eqb c b'/')) [
  | inl slash ↦ rw slash (refl, split-NoSlash s)
  | inr other ↦ rw other (push_first-NoSlash c (split b'/' s) other (split-NoSlash s))
]

clean_step-Plain :
    (stack : List Str) (part : Str)
    → All Plain stack
    → NoSlash part
    → All Plain (clean_step true stack part)
unfolding clean_step
clean_step-Plain [] part a n = ground (arith, ==_iff part dot, ==_iff part dot_dot)
clean_step-Plain (s ∷ ss) part a n =
    ground (arith, ==_iff part dot, ==_iff part dot_dot, ==_iff s dot_dot)

reverse_aux-Plain :
    (ps acc : List Str) → All Plain ps → All Plain acc → All Plain (reverse_aux ps acc)
reverse_aux-Plain [] acc a b = b
reverse_aux-Plain (p ∷ ps) acc a b = reverse_aux-Plain ps (p ∷ acc) a.1 (a.0, b)

reverse-Plain : (ps : List Str) → All Plain ps → All Plain (reverse ps)
reverse-Plain ps a = reverse_aux-Plain ps [] a tt

clean_parts-Plain :
    (stack parts : List Str)
    → All Plain stack
    → All NoSlash parts
    → All Plain (clean_parts true stack parts)
unfolding clean_parts
clean_parts-Plain stack [] a n = reverse-Plain stack a
clean_parts-Plain stack (p ∷ ps) a n =
    clean_parts-Plain (clean_step true stack p) ps (clean_step-Plain stack p a n.0) n.1

-- A cleaned absolute path is a slash and plain elements.
abbrev pub IsPlainPath : Str → Type 0
IsPlainPath path = (ps : List Str) × (path ≡ print_path true ps) × All Plain ps

clean-IsPlainPath : (path : Str) → is_abs path ≡ true → IsPlainPath (clean path)
unfolding clean
clean-IsPlainPath path h = (
  clean_parts true [] (split b'/' path),
  rw h refl,
  clean_parts-Plain [] (split b'/' path) tt (split-NoSlash path),
)

clean-is_abs : (path : Str) → is_abs path ≡ true → is_abs (clean path) ≡ true
unfolding clean
clean-is_abs path h = rw h refl

prefix_rest : (p q : Str) → has_prefix p q ≡ true → (rest : Str) × (p ≡ q ++ rest)
unfolding has_prefix
prefix_rest p [] h = (p, refl)
prefix_rest [] (c ∷ q) h = cc
prefix_rest (d ∷ p) (c ∷ q) h =
    let (rest, e) = prefix_rest p q (ground arith) in (rest, ground (arith, e))

join_path-is_abs : (root name : Str) → is_abs root ≡ true → is_abs (join_path root name) ≡ true
unfolding join_path is_abs
join_path-is_abs [] name h = cc
join_path-is_abs (c ∷ root) [] h = clean-is_abs (c ∷ root) h
join_path-is_abs (c ∷ root) (d ∷ name) h = clean-is_abs (c ∷ root ++ b'/' ∷ d ∷ name) h

joined :
    (root name p : Str)
    → join_below root name ≡ ok p
    → (clean (join_path (clean root) name) ≡ p)
      × ((not (p == clean root) && not (has_prefix p (clean root ++ b'/' ∷ []))) ≡ false)
unfolding join_below
joined root name p e = (ground arith, ground arith)

-- A path lies below a directory: it is the directory, or goes on with a slash behind it.
abbrev pub IsBelow : Str → Str → Type 0
IsBelow path dir = (path ≡ dir) ⊎ ((rest : Str) × (path ≡ dir ++ b'/' ∷ rest))

-- With an absolute root, whatever name a client gives: the path that Join accepts lies below the
-- cleaned root, and its elements are plain ones, with no `..` left to follow.
pub join_below-IsBelow :
    (root name p : Str)
    → is_abs root ≡ true
    → join_below root name ≡ ok p
    → IsBelow p (clean root) × IsPlainPath p
join_below-IsBelow root name p abs e =
    let (same, passed) = joined root name p e in
    let plain =
      clean-IsPlainPath (join_path (clean root) name)
        (join_path-is_abs (clean root) name (clean-is_abs root abs)) in
    (
      elim (Bool-cases (p == clean root)) [
        | inl root_itself ↦ inl ((==_iff p (clean root)).0 root_itself)
        | inr other ↦
            let (rest, q) = prefix_rest p (clean root ++ b'/' ∷ []) (ground arith) in
            inr (rest, ground (arith, q, append_assoc (clean root) (b'/' ∷ []) rest))
      ],
      subst IsPlainPath same plain,
    )

no_double_slash : (ps : List Str) (rest : Str) → All Plain ps → join b'/' ps ≢ b'/' ∷ rest
unfolding join
no_double_slash [] rest a e = cc
no_double_slash ([] ∷ ps) rest a e = cc (a.0.0)
no_double_slash ((d ∷ q) ∷ []) rest a e =
    let h : d ≡ b'/' = ground arith in ground (arith, a.0.3, h)
no_double_slash ((d ∷ q) ∷ p ∷ ps) rest a e =
    let h : d ≡ b'/' = ground arith in ground (arith, a.0.3, h)

clean_root_itself : clean (lit "/") ≡ lit "/"
unfolding clean split ◌==◌ join
clean_root_itself = refl

-- Under the root of the file system Join accepts nothing but that root itself.
join_below-slash : (name p : Str) → join_below (lit "/") name ≡ ok p → p ≡ lit "/"
unfolding print_path is_abs
join_below-slash name p e =
    let (below, (ps, q, plain)) = join_below-IsBelow (lit "/") name p refl e in
    elim below [
      | inl itself ↦ itself ∙ clean_root_itself
      | inr (rest, deeper) ↦
          let double : join b'/' ps ≡ b'/' ∷ rest = ground (arith, deeper, q, clean_root_itself) in
          absurd (no_double_slash ps rest plain double)
    ]
