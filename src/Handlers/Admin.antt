-- ===== src/Handlers/Admin.antt =====
-- handlers_tokens.go: the endpoints by which an admin manages API tokens.
pub mod Managing
use selenwright.Prelude.{
  ℕ, Bool, true, false, List, [], ◌∷◌, ◌++◌, Option, none, some, Str, lit, ◌==◌, trim_space,
  contains_any, is_empty, has_prefix, has_suffix, drop, take, length, ◌-◌, elem, not, ◌||◌,
  if◌then◌else◌, Result, ok, err,
}
use selenwright.Protect.Token.{
  Crypto, TokenStore, TokenMeta, TokenError, token_not_found, owner_required, name_required,
  token_invalid, create, list_tokens, revoke, revoke_by_owner, owners,
}

-- What a call to create a token takes from elsewhere: the users of the password file, where there is
-- one, the groups of a user, the clock, the random bytes, bcrypt and the write of the store's file.
pub record Issuer : Type 0 where
  pub crypto : Crypto
  pub users : Option (List Str)
  pub groups_for : Str → List Str
  pub now : ℕ
  pub random : Option Str
  pub id_random : Option Str
  pub hash_of : Str → Option Str
  pub written : Bool

-- A request: whether requireAdmin lets it pass, its path, the owner of the query, and the owner and the
-- name of the body, `none` where it is invalid.
pub data Method : Type 0 where
  post get delete_method other_method : Method

pub record AdminCall : Type 0 where
  pub admits : Bool
  pub method : Method
  pub path : Str
  pub owner_query : Str
  pub body : Option (Str × Str)

pub data TokensAnswer : Type 0 where
  not_found forbidden method_not_allowed : TokensAnswer
  missing_token_id invalid_body fields_required owner_query_required : TokensAnswer
  unknown_owner : Str → TokensAnswer
  revoke_failed create_failed : TokensAnswer
  revoked : Str → TokensAnswer
  bulk_revoked : Str → ℕ → TokensAnswer
  created : Str → Str → TokensAnswer
  listed : List TokenMeta → TokensAnswer
  users_listed : List Str → TokensAnswer

abbrev pub is_known : Option (List Str) → Str → Bool
is_known none owner = true
is_known (some users) owner = elem owner users

unfoldable pub create_token_handler :
    Issuer → Option (Str × Str) → TokenStore → TokenStore × TokensAnswer
create_token_handler env none s = (s, invalid_body)
create_token_handler env (some (raw_owner, raw_name)) s =
    let owner = trim_space raw_owner in
    let name = trim_space raw_name in
    if is_empty owner || is_empty name
    then (s, fields_required)
    else if not (is_known env.users owner)
    then (s, unknown_owner owner)
    else let (s', made) =
        create env.crypto env.now env.random env.hash_of env.id_random env.written owner name
          (env.groups_for owner) s in
      (s', (elim made [ err e ↦ create_failed | ok (id, plaintext) ↦ created id plaintext ]))

-- `sort` is sort.Slice, by the owner and then by the time.
unfoldable pub list_tokens_handler :
    (List TokenMeta → List TokenMeta) → Str → TokenStore → TokensAnswer
list_tokens_handler sort owner_query s =
    listed (sort (list_tokens (trim_space owner_query) s.tokens))

unfoldable pub bulk_revoke_tokens_handler : Bool → Str → TokenStore → TokenStore × TokensAnswer
bulk_revoke_tokens_handler written owner_query s =
    let owner = trim_space owner_query in
    if is_empty owner
    then (s, owner_query_required)
    else let (s', n, done) = revoke_by_owner written owner s in
      (s', (elim done [ err e ↦ revoke_failed | ok u ↦ bulk_revoked owner n ]))

-- `store` is nil where there is none.
unfoldable pub tokens_handler :
    Issuer
    → (List TokenMeta → List TokenMeta)
    → AdminCall
    → Option TokenStore
    → Option TokenStore × TokensAnswer
unfolding create_token_handler list_tokens_handler bulk_revoke_tokens_handler
tokens_handler env sort call none = (none, not_found)
tokens_handler env sort call (some s) =
    if not call.admits then (some s, forbidden) else (elim call.method [
      | post ↦ let (s', a) = create_token_handler env call.body s in (some s', a)
      | get ↦ (some s, list_tokens_handler sort call.owner_query s)
      | delete_method ↦
          let (s', a) = bulk_revoke_tokens_handler env.written call.owner_query s in (some s', a)
      | other_method ↦ (some s, method_not_allowed)
    ])

abbrev tokens_prefix : Str
tokens_prefix = lit "/api/admin/tokens/"

abbrev trim_slash : Str → Str
trim_slash s = if has_suffix s (lit "/") then take (length s - 1) s else s

-- The id of the path, behind the prefix and without one slash at its end.
unfoldable pub token_id_of : Str → Str
token_id_of path =
    trim_slash (if has_prefix path tokens_prefix then drop (length tokens_prefix) path else path)

unfoldable pub token_by_id_handler :
    Bool → AdminCall → Option TokenStore → Option TokenStore × TokensAnswer
unfolding token_id_of
token_by_id_handler written call none = (none, not_found)
token_by_id_handler written call (some s) =
    if not call.admits then (some s, forbidden) else (elim call.method [
      | post ↦ (some s, method_not_allowed)
      | get ↦ (some s, method_not_allowed)
      | other_method ↦ (some s, method_not_allowed)
      | delete_method ↦
          let id = token_id_of call.path in
          if is_empty id || contains_any id (lit "/?#")
          then (some s, missing_token_id)
          else let (s', done) = revoke written id s in
            (
              some s',
              (elim done [
                | ok u ↦ revoked id
                | err e ↦ elim e [ token_not_found ↦ not_found | _ ↦ revoke_failed ]
              ]),
            )
    ])

abbrev add_all : List Str → List Str → List Str
add_all [] seen = seen
add_all (s ∷ ss) seen = if elem s seen then add_all ss seen else add_all ss (s ∷ seen)

abbrev given_users : Option (List Str) → List Str
given_users none = []
given_users (some us) = us

abbrev store_owners : Option TokenStore → List Str
store_owners none = []
store_owners (some s) = owners s.tokens

-- The names that are known, each once; `sort` is sort.Strings.
unfoldable pub token_users_handler :
    (List Str → List Str) → Option (List Str) → AdminCall → Option TokenStore → TokensAnswer
token_users_handler sort users call store =
    if not call.admits then forbidden else (elim call.method [
      | post ↦ method_not_allowed
      | delete_method ↦ method_not_allowed
      | other_method ↦ method_not_allowed
      | get ↦ users_listed (sort (add_all (store_owners store) (add_all (given_users users) [])))
    ])
