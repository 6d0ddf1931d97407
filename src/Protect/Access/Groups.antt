-- ===== src/Protect/Access/Groups.antt =====
-- Access through a common group.
use selenwright.Prelude.{
  ◌≡◌, refl, ◌≢◌, ◌↔◌, ◌⊎◌, inl, inr, true, false, List, [], ◌∷◌, Str, ◌==◌, ==_iff, ==_refl, elem,
  is_empty, keep, not, ◌&&◌, any, arith, if◌then◌else◌, Bool-cases, ap,
}
use selenwright.Protect.Access.{Identity, groups_intersect, session_access}

-- A group that is not the empty string and stands in both lists.
abbrev pub Common : List Str → List Str → Type 0
Common a b = (g : Str) × (g ≢ []) × (elem g a ≡ true) × (elem g b ≡ true)

named : (g : Str) → is_empty g ≡ false → g ≢ []
named [] h e = cc
named (c ∷ g) h e = cc

unnamed : (g : Str) → g ≢ [] → is_empty g ≡ false
unnamed [] n = absurd (n refl)
unnamed (c ∷ g) n = refl

elem-keep :
    (g : Str) (a : List Str)
    → elem g (keep (λ x. not (is_empty x)) a) ≡ (if is_empty g then false else elem g a)
unfolding elem
elem-keep g [] = ground arith
elem-keep g (x ∷ a) = elim (Bool-cases (x == g)) [
  | inl same ↦
      let e : x ≡ g = (==_iff x g).0 same in ground (arith, same, ap is_empty e, elem-keep g a)
  | inr other ↦ ground (arith, other, elem-keep g a)
]

any-elem :
    (s b : List Str)
    → any (λ g. elem g s) b ≡ true
    → (g : Str) × (elem g s ≡ true) × (elem g b ≡ true)
unfolding elem
any-elem s [] h = cc
any-elem s (x ∷ b) h = elim (Bool-cases (elem x s)) [
  | inl here ↦ (x, here, rw (==_refl x))
  | inr later ↦ let (g, p, q) = any-elem s b (ground arith) in (g, p, ground (arith, q))
]

any-elem_of :
    (s b : List Str) (g : Str) → elem g s ≡ true → elem g b ≡ true → any (λ g. elem g s) b ≡ true
unfolding elem
any-elem_of s [] g p q = cc
any-elem_of s (x ∷ b) g p q = elim (Bool-cases (x == g)) [
  | inl same ↦ rw ((==_iff x g).0 same, p)
  | inr other ↦ ground (arith, any-elem_of s b g p)
]

groups_intersect_sound : (a b : List Str) → groups_intersect a b ≡ true → Common a b
unfolding groups_intersect
groups_intersect_sound a b h =
    let (g, p, q) = any-elem (keep (λ x. not (is_empty x)) a) b (ground arith) in
    (g, named g (ground (arith, elem-keep g a, p)), ground (arith, elem-keep g a, p), q)

groups_intersect_complete : (a b : List Str) → Common a b → groups_intersect a b ≡ true
unfolding groups_intersect elem
groups_intersect_complete [] b (g, n, p, q) = cc
groups_intersect_complete (x ∷ a) [] (g, n, p, q) = cc
groups_intersect_complete (x ∷ a) (y ∷ b) (g, n, p, q) =
    any-elem_of (keep (λ x. not (is_empty x)) (x ∷ a)) (y ∷ b) g
      (ground (arith, elem-keep g (x ∷ a), unnamed g n, p)) q

-- What entitles an identity to a session: being an admin, being its owner by name, or a common
-- group; an empty name or group never counts.
abbrev pub Entitled : Identity → Str → List Str → Type 0
Entitled id owner groups =
    (id.is_admin ≡ true) ⊎ ((owner ≢ []) × (owner ≡ id.user)) ⊎ Common id.groups groups

session_access_sound :
    (id : Identity) (owner : Str) (groups : List Str)
    → session_access id owner groups ≡ true
    → Entitled id owner groups
unfolding session_access
session_access_sound id owner groups h = elim (Bool-cases id.is_admin) [
  | inl admin ↦ inl admin
  | inr plain ↦ elim (Bool-cases (not (is_empty owner) && owner == id.user)) [
    | inl own ↦ inr (inl (named owner (ground arith), (==_iff owner id.user).0 (ground arith)))
    | inr other ↦ inr (inr (groups_intersect_sound id.groups groups (ground arith)))
  ]
]

session_access_complete :
    (id : Identity) (owner : Str) (groups : List Str)
    → Entitled id owner groups
    → session_access id owner groups ≡ true
unfolding session_access
session_access_complete id owner groups (inl admin) = ground arith
session_access_complete id owner groups (inr (inl (n, e))) =
    ground (arith, unnamed owner n, (==_iff owner id.user).1 e)
session_access_complete id owner groups (inr (inr common)) =
    ground (arith, groups_intersect_complete id.groups groups common)

-- SessionAccess grants access exactly to the identities that are entitled to the session: to an
-- admin, to its owner by name, and to one whose groups share a group with the owner's, where an
-- empty name or group never counts.
pub session_access_iff :
    (id : Identity) (owner : Str) (groups : List Str)
    → (session_access id owner groups ≡ true) ↔ Entitled id owner groups
session_access_iff id owner groups =
    (session_access_sound id owner groups, session_access_complete id owner groups)
