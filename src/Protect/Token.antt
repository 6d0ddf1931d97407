-- ===== src/Protect/Token.antt =====
-- protect/token.go: the store of API tokens. The clock, the random bytes, the salt of a new hash
-- and the success of a write are arguments of the operation that uses them.
pub mod Index
pub mod Steps
pub mod Revoking
pub mod Issuing
use selenwright.Prelude.{
  ℕ, suc, Bool, true, false, List, [], ◌∷◌, ◌++◌, Option, none, some, Str, StrMap, lit, ◌==◌,
  lookup, insert, is_empty, has_prefix, trim_space, take, get_elem?, Result, ok, err, if◌then◌else◌,
  ltb, eqb, keep, not, elem, is_some, ◌||◌,
}

-- bcrypt.CompareHashAndPassword, and the hexadecimal text of sha256.Sum256.
pub record Crypto : Type 0 where
  pub compare : Str → Str → Bool
  pub sha256_hex : Str → Str

pub record TokenRecord : Type 0 where
  pub id : Str
  pub hash_prefix : Str
  pub hash : Str
  pub owner : Str
  pub owner_groups : List Str
  pub name : Str
  pub created_at : ℕ
  pub last_used_at : Option ℕ
  pub expires_at : Option ℕ

pub record TokenMeta : Type 0 where
  pub id : Str
  pub owner : Str
  pub name : Str
  pub created_at : ℕ
  pub last_used_at : Option ℕ
  pub expires_at : Option ℕ

-- `disk` is what the file at `path` holds.
pub record TokenStore : Type 0 where
  pub tokens : List TokenRecord
  pub by_prefix : StrMap (List ℕ)
  pub pending_touch : StrMap ℕ
  pub disk : List TokenRecord

pub data TokenError : Type 0 where
  owner_required name_required random_failed hash_failed persist_failed : TokenError
  token_invalid token_not_found read_failed parse_failed : TokenError

abbrev pub token_plaintext_prefix : Str
token_plaintext_prefix = lit "swr_live_"

abbrev pub token_hash_prefix_len : ℕ
token_hash_prefix_len = 4

-- An argument `none` is a failure of rand.Read; `some` has the bytes in hexadecimal.
abbrev pub generate_plaintext : Option Str → Option Str
generate_plaintext none = none
generate_plaintext (some body) = some (token_plaintext_prefix ++ body)

abbrev pub generate_id : Option Str → Option Str
generate_id none = none
generate_id (some body) = some (lit "tok_" ++ body)

unfoldable pub hash_prefix : Crypto → Str → Str
hash_prefix c plaintext = take token_hash_prefix_len (c.sha256_hex plaintext)

abbrev pub positions_of : Option (List ℕ) → List ℕ
positions_of none = []
positions_of (some ps) = ps

-- The loop of rebuildIndexLocked, at the position `i`.
unfoldable pub index_from : ℕ → StrMap (List ℕ) → List TokenRecord → StrMap (List ℕ)
index_from i idx [] = idx
index_from i idx (t ∷ ts) =
    index_from (suc i)
      (insert t.hash_prefix (positions_of (lookup t.hash_prefix idx) ++ i ∷ []) idx) ts

unfoldable pub rebuild_index : TokenStore → TokenStore
rebuild_index s = record s { by_prefix = index_from 0 [] s.tokens }

-- atomicWrite leaves the file as it was when it fails.
abbrev pub persist : Bool → TokenStore → TokenStore
persist written s = if written then record s { disk = s.tokens } else s

-- `data` is what os.ReadFile and json.Unmarshal make of the file, `none` when it does not exist
-- or is empty.
pub load : Result TokenError (Option (List TokenRecord)) → Result TokenError TokenStore
unfolding rebuild_index
load (err e) = err e
load (ok none) = ok (record { tokens = []; by_prefix = []; pending_touch = []; disk = [] })
load (ok (some tokens)) =
    ok (
      rebuild_index (record { tokens = tokens; by_prefix = []; pending_touch = []; disk = tokens }))

-- `append`, rebuildIndexLocked and persistLocked, under the lock.
unfoldable pub add_record : Bool → TokenRecord → TokenStore → TokenStore
unfolding rebuild_index
add_record written rec s =
    persist written (rebuild_index (record s { tokens = s.tokens ++ rec ∷ [] }))

-- The candidates' records; `none` is an index out of range, which panics.
unfoldable pub gather : List TokenRecord → List ℕ → Option (List TokenRecord)
gather tokens [] = some []
gather tokens (i ∷ is) = elim (get_elem? tokens i) [
  | none ↦ none
  | some t ↦ elim (gather tokens is) [ none ↦ none | some ts ↦ some (t ∷ ts) ]
]

pub record Found : Type 0 where
  pub owner : Str
  pub groups : List Str
  pub id : Str

abbrev pub is_expired : ℕ → Option ℕ → Bool
is_expired now none = false
is_expired now (some e) = ltb e now

-- The first candidate whose hash fits decides.
unfoldable pub first_match : Crypto → ℕ → Str → List TokenRecord → Option Found
first_match c now plaintext [] = none
first_match c now plaintext (t ∷ ts) =
    if c.compare t.hash plaintext
    then (if is_expired now t.expires_at
        then none
        else some (record { owner = t.owner; groups = t.owner_groups; id = t.id }))
    else first_match c now plaintext ts

-- Lookup; the outer `none` is a panic.
unfoldable pub lookup_token : Crypto → ℕ → Str → TokenStore → Option (Option Found)
unfolding gather first_match
lookup_token c now plaintext s =
    if has_prefix plaintext token_plaintext_prefix
    then (elim (gather s.tokens (positions_of (lookup (hash_prefix c plaintext) s.by_prefix))) [
      | none ↦ none
      | some ts ↦ some (first_match c now plaintext ts)
    ])
    else some none

abbrev new_record : Crypto → ℕ → Str → Str → List Str → Str → Str → Str → TokenRecord
new_record c now owner name groups plaintext hash id = record {
  id = id;
  hash_prefix = hash_prefix c plaintext;
  hash = hash;
  owner = owner;
  owner_groups = groups;
  name = name;
  created_at = now;
  last_used_at = none;
  expires_at = none;
}

-- `body` and `id_body` are the random bytes, `hash_of` is bcrypt.GenerateFromPassword.
unfoldable pub create :
    Crypto
    → ℕ
    → Option Str
    → (Str → Option Str)
    → Option Str
    → Bool
    → Str
    → Str
    → List Str
    → TokenStore
    → TokenStore × Result TokenError (Str × Str)
unfolding add_record
create c now body hash_of id_body written owner name groups s =
    if is_empty (trim_space owner)
    then (s, err owner_required)
    else if is_empty (trim_space name)
    then (s, err name_required)
    else (elim (generate_plaintext body) [
      | none ↦ (s, err random_failed)
      | some plaintext ↦ elim (hash_of plaintext) [
        | none ↦ (s, err hash_failed)
        | some hash ↦ elim (generate_id id_body) [
          | none ↦ (s, err random_failed)
          | some id ↦ (
            add_record written
                (new_record c now (trim_space owner) (trim_space name) groups plaintext hash id) s,
            if written then ok (id, plaintext) else err persist_failed,
          )
        ]
      ]
    ])

-- SeedFromPlaintext. The outer `none` is a panic of the lookup.
pub seed :
    Crypto
    → ℕ
    → (Str → Option Str)
    → Option Str
    → Bool
    → Str
    → Str
    → Str
    → List Str
    → TokenStore
    → Option (TokenStore × Result TokenError (Str × Bool))
unfolding add_record lookup_token
seed c now hash_of id_body written owner name plaintext groups s =
    if is_empty (trim_space owner)
    then some (s, err owner_required)
    else if is_empty (trim_space name)
    then some (s, err name_required)
    else if has_prefix plaintext token_plaintext_prefix
    then (elim (lookup_token c now plaintext s) [
      | none ↦ none
      | some (some found) ↦ some (s, ok (found.id, true))
      | some none ↦ elim (hash_of plaintext) [
        | none ↦ some (s, err hash_failed)
        | some hash ↦ elim (generate_id id_body) [
          | none ↦ some (s, err random_failed)
          | some id ↦ some (
            add_record written
                (new_record c now (trim_space owner) (trim_space name) groups plaintext hash id) s,
            if written then ok (id, false) else err persist_failed,
          )
        ]
      ]
    ])
    else some (s, err token_invalid)

pub touch_last_used : ℕ → Str → TokenStore → TokenStore
touch_last_used now id s =
    if is_empty id then s else record s { pending_touch = insert id now s.pending_touch }

abbrev pub meta : TokenRecord → TokenMeta
meta t = record {
  id = t.id;
  owner = t.owner;
  name = t.name;
  created_at = t.created_at;
  last_used_at = t.last_used_at;
  expires_at = t.expires_at;
}

pub list_tokens : Str → List TokenRecord → List TokenMeta
list_tokens owner [] = []
list_tokens owner (t ∷ ts) =
    if is_empty owner || t.owner == owner
    then meta t ∷ list_tokens owner ts
    else list_tokens owner ts

-- The loop of Revoke: the records without the first one of that id.
unfoldable pub remove_first : Str → List TokenRecord → Option (List TokenRecord)
remove_first id [] = none
remove_first id (t ∷ ts) =
    if t.id == id
    then some ts
    else (elim (remove_first id ts) [ none ↦ none | some ts' ↦ some (t ∷ ts') ])

unfoldable pub revoke : Bool → Str → TokenStore → TokenStore × Result TokenError (Unit {0})
unfolding remove_first rebuild_index
revoke written id s = elim (remove_first id s.tokens) [
  | none ↦ (s, err token_not_found)
  | some ts ↦ (
    persist written (rebuild_index (record s { tokens = ts })),
    if written then ok tt else err persist_failed,
  )
]

-- The loop of RevokeByOwner: how many records it drops, and what it keeps.
unfoldable pub count_owned : Str → List TokenRecord → ℕ
count_owned owner [] = 0
count_owned owner (t ∷ ts) =
    if t.owner == owner then suc (count_owned owner ts) else count_owned owner ts

unfoldable pub revoke_by_owner :
    Bool → Str → TokenStore → TokenStore × ℕ × Result TokenError (Unit {0})
unfolding count_owned rebuild_index
revoke_by_owner written owner s = if eqb (count_owned owner s.tokens) 0 then (s, 0, ok tt) else (
  persist written
      (rebuild_index (record s { tokens = keep (λ t. not (t.owner == owner)) s.tokens })),
  count_owned owner s.tokens,
  if written then ok tt else err persist_failed,
)

-- The keys of the set that Owners builds, in the order of first occurrence.
pub owners : List TokenRecord → List Str
owners [] = []
owners (t ∷ ts) = let rest = owners ts in if elem t.owner rest then rest else t.owner ∷ rest

touched : StrMap ℕ → TokenRecord → TokenRecord
touched pending t = elim (lookup t.id pending) [
  | none ↦ t
  | some now ↦ record t { last_used_at = some now }
]

pub touch_all : StrMap ℕ → List TokenRecord → List TokenRecord
touch_all pending [] = []
touch_all pending (t ∷ ts) = touched pending t ∷ touch_all pending ts

abbrev any_touched : StrMap ℕ → List TokenRecord → Bool
any_touched pending [] = false
any_touched pending (t ∷ ts) = is_some (lookup t.id pending) || any_touched pending ts

-- flushTouches: what was pending is forgotten, also when the write fails.
pub flush_touches : Bool → TokenStore → TokenStore × Result TokenError (Unit {0})
unfolding touch_all
flush_touches written s =
    if any_touched s.pending_touch s.tokens
    then (
      persist written
          (record s { tokens = touch_all s.pending_touch s.tokens; pending_touch = [] }),
      if written then ok tt else err persist_failed,
    )
    else (record s { pending_touch = [] }, ok tt)
