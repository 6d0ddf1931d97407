-- ===== src/Protect/Htpasswd.antt =====
-- protect/htpasswd.go: users with bcrypt hashes. The lines of the file are what bufio.Scanner
-- yields; the groups provider is a function.
pub mod Parsing
use selenwright.Prelude.{
  ℕ, suc, ◌-◌, Bool, true, false, List, [], ◌∷◌, Option, none, some, Str, StrMap, lit, ◌==◌, lookup,
  insert, elem, is_empty, is_some, length, take, drop, trim_space, has_prefix, Result, ok, err, ltb,
  eqb, ◌||◌, if◌then◌else◌,
}
use selenwright.Protect.Access.{Identity}
use selenwright.Protect.Token.{Crypto}
use selenwright.Protect.Request.{Request}

pub data AuthError : Type 0 where
  auth_required auth_failed : AuthError

pub record HtpasswdAuthenticator : Type 0 where
  pub entries : StrMap Str
  pub admins : List Str
  pub groups_for : Str → List Str

pub data HtpasswdError : Type 0 where
  expected_user_hash only_bcrypt duplicate_user scan_failed no_entries : HtpasswdError

-- strings.IndexByte; `none` for -1.
unfoldable pub index_byte : ℕ → Str → Option ℕ
index_byte b [] = none
index_byte b (c ∷ s) =
    if eqb c b then some 0 else (elim (index_byte b s) [ none ↦ none | some i ↦ some (suc i) ])

unfoldable pub is_bcrypt_hash : Str → Bool
is_bcrypt_hash s =
    if ltb (length s) 4
    then false
    else let prefix = take 4 s in
      prefix == lit "$2a$" || prefix == lit "$2b$" || prefix == lit "$2y$"

-- One line of the file, which has been trimmed.
unfoldable pub parse_line : Str → StrMap Str → Result HtpasswdError (StrMap Str)
unfolding index_byte is_bcrypt_hash
parse_line line entries =
    if is_empty line || has_prefix line (lit "#")
    then ok entries
    else (elim (index_byte b':' line) [
      | none ↦ err expected_user_hash
      | some colon ↦
          if eqb colon 0 || eqb colon (length line - 1)
          then err expected_user_hash
          else let user = take colon line in
            let hash = drop (suc colon) line in
            if is_bcrypt_hash hash
            then (if is_some (lookup user entries)
                then err duplicate_user
                else ok (insert user hash entries))
            else err only_bcrypt
    ])

unfoldable pub parse_lines : List Str → StrMap Str → Result HtpasswdError (StrMap Str)
parse_lines [] entries = ok entries
parse_lines (l ∷ ls) entries = elim (parse_line (trim_space l) entries) [
  | err e ↦ err e
  | ok entries' ↦ parse_lines ls entries'
]

-- `scanned` is false where the scanner stops with an error.
unfoldable pub parse_htpasswd : List Str → Bool → Result HtpasswdError (StrMap Str)
unfolding parse_lines
parse_htpasswd lines scanned = elim (parse_lines lines []) [
  | err e ↦ err e
  | ok entries ↦
      if scanned then (if is_empty entries then err no_entries else ok entries) else err scan_failed
]

-- A failed reload keeps the users that were loaded before.
pub reload : List Str → Bool → HtpasswdAuthenticator → HtpasswdAuthenticator × Option HtpasswdError
unfolding parse_htpasswd
reload lines scanned a = elim (parse_htpasswd lines scanned) [
  | err e ↦ (a, some e)
  | ok entries ↦ (record a { entries = entries }, none)
]

pub string_set : List Str → List Str
string_set [] = []
string_set (s ∷ ss) =
    let rest = string_set ss in
    let t = trim_space s in if is_empty t || elem t rest then rest else t ∷ rest

pub set_admins : List Str → HtpasswdAuthenticator → HtpasswdAuthenticator
set_admins admins a = record a { admins = string_set admins }

pub set_groups : (Str → List Str) → HtpasswdAuthenticator → HtpasswdAuthenticator
set_groups groups_for a = record a { groups_for = groups_for }

unfoldable pub validate_credentials :
    Crypto → HtpasswdAuthenticator → Str → Str → Result AuthError Identity
validate_credentials c a user pass = elim (lookup user a.entries) [
  | none ↦ err auth_failed
  | some hash ↦
      if c.compare hash pass
      then ok (record { user = user; is_admin = elem user a.admins; groups = a.groups_for user })
      else err auth_failed
]

unfoldable pub authenticate_basic :
    Crypto → HtpasswdAuthenticator → Request → Result AuthError Identity
authenticate_basic c a r = elim r.basic_auth [
  | none ↦ err auth_required
  | some (user, pass) ↦ validate_credentials c a user pass
]

abbrev pub htpasswd_realm : Str
htpasswd_realm = lit "selenwright"
