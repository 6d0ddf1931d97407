-- ===== src/Protect/Access.antt =====
-- protect/session_acl.go and the identity of protect/auth.go: who may operate on a session.
pub mod Groups
use selenwright.Prelude.{
  ℕ, Bool, true, false, List, [], ◌∷◌, Option, none, some, Str, ◌==◌, elem, is_empty, split,
  get_elem?, keep, not, any, ◌&&◌, ◌||◌, if◌then◌else◌,
}

pub record Identity : Type 0 where
  pub user : Str
  pub is_admin : Bool
  pub groups : List Str

-- The zero value, which IdentityFromContext returns where nothing was stored.
abbrev pub no_identity : Identity
no_identity = record { user = []; is_admin = false; groups = [] }

pub groups_intersect : List Str → List Str → Bool
groups_intersect a b =
    if is_empty a || is_empty b
    then false
    else let set = keep (λ g. not (is_empty g)) a in any (λ g. elem g set) b

unfoldable pub session_access : Identity → Str → List Str → Bool
session_access id session_owner session_owner_groups =
    if id.is_admin
    then true
    else if not (is_empty session_owner) && session_owner == id.user
    then true
    else groups_intersect id.groups session_owner_groups

-- The fragment of the path at the index, or the empty string.
unfoldable pub extract_session_id : Str → ℕ → Str
extract_session_id path id_index = elim (get_elem? (split b'/' path) id_index) [
  | none ↦ []
  | some f ↦ f
]
