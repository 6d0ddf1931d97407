-- ===== src/Protect/Htpasswd/Parsing.antt =====
-- What a password file that is accepted looks like.
use selenwright.Prelude.{
  ℕ, suc, ◌≡◌, ◌≢◌, refl, Bool, true, false, List, [], ◌∷◌, none, some, Str, StrMap, lit, ◌==◌,
  ==_iff, lookup, insert, lookup-insert, is_empty, take, drop, trim_space, has_prefix, ok, arith,
  inl, inr, Bool-cases, Option-cases, Result-cases, ◌⊎◌, sym, zero, eqb, ◌||◌, subst, KeysNodup,
  insert-KeysNodup,
}
use selenwright.Protect.Htpasswd.{
  index_byte, is_bcrypt_hash, parse_line, parse_lines, parse_htpasswd,
}

-- Every user has a name without a colon that is not empty, and a bcrypt hash.
abbrev pub WellFormed : StrMap Str → Type 0
WellFormed m =
    (user hash : Str)
    → lookup user m ≡ some hash
    → (user ≢ []) × (index_byte b':' user ≡ none) × (is_bcrypt_hash hash ≡ true)

index_byte-take :
    (b : ℕ) (s : Str) (i : ℕ) → index_byte b s ≡ some i → index_byte b (take i s) ≡ none
unfolding index_byte
index_byte-take b [] i e = cc
index_byte-take b (c ∷ s) i e = elim (Bool-cases (eqb c b)) [
  | inl here ↦
      let first : 0 ≡ i = ground arith in
      subst (λ j. index_byte b (take j (c ∷ s)) ≡ none) first refl
  | inr later ↦ elim (Option-cases (index_byte b s)) [
    | inl absent ↦ absurd (ground arith)
    | inr (j, found) ↦
        let next : suc j ≡ i = ground arith in
        subst (λ k. index_byte b (take k (c ∷ s)) ≡ none) next
          (ground (arith, index_byte-take b s j found))
  ]
]

take-ne-nil : (n : ℕ) (s : Str) → n ≢ 0 → is_empty s ≡ false → take n s ≢ []
take-ne-nil zero s n e h = n refl
take-ne-nil (suc k) [] n e h = cc
take-ne-nil (suc k) (c ∷ s) n e h = cc

-- What an accepted line adds.
record Adds (entries entries' : StrMap Str) : Type 0 where
  user : Str
  hash : Str
  added : entries' ≡ insert user hash entries
  named : user ≢ []
  no_colon : index_byte b':' user ≡ none
  is_bcrypt : is_bcrypt_hash hash ≡ true

parse_line-Adds :
    (line : Str) (entries entries' : StrMap Str)
    → parse_line line entries ≡ ok entries'
    → (entries' ≡ entries) ⊎ Adds entries entries'
unfolding parse_line
parse_line-Adds line entries entries' e =
    elim (Bool-cases (is_empty line || has_prefix line (lit "#"))) [
      | inl skipped ↦ inl (ground arith)
      | inr read ↦ elim (Option-cases (index_byte b':' line)) [
        | inl absent ↦ absurd (ground arith)
        | inr (colon, found) ↦ inr (record {
          user = take colon line;
          hash = drop (suc colon) line;
          added = ground arith;
          named = take-ne-nil colon line (ground arith) (ground arith);
          no_colon = index_byte-take b':' line colon found;
          is_bcrypt = ground arith;
        })
      ]
    ]

Adds-WellFormed :
    (entries entries' : StrMap Str)
    → Adds entries entries'
    → WellFormed entries
    → WellFormed entries'
Adds-WellFormed entries entries' a w user hash found = elim (Bool-cases (a.user == user)) [
  | inl same ↦
      let u : a.user ≡ user = (==_iff _ _).0 same in
      let h : a.hash ≡ hash =
        ground (arith, a.added, lookup-insert a.user user a.hash entries, found, same) in
      (
        subst (λ x. x ≢ []) u a.named,
        subst (λ x. index_byte b':' x ≡ none) u a.no_colon,
        subst (λ x. is_bcrypt_hash x ≡ true) h a.is_bcrypt,
      )
  | inr other ↦
      w user hash (ground (arith, a.added, lookup-insert a.user user a.hash entries, found, other))
]

Adds-KeysNodup :
    (entries entries' : StrMap Str) → Adds entries entries' → KeysNodup entries → KeysNodup entries'
Adds-KeysNodup entries entries' a n =
    subst KeysNodup (sym a.added) (insert-KeysNodup a.user a.hash entries n)

parse_lines_lem :
    (lines : List Str) (entries m : StrMap Str)
    → WellFormed entries
    → KeysNodup entries
    → parse_lines lines entries ≡ ok m
    → WellFormed m × KeysNodup m
unfolding parse_lines
parse_lines_lem [] entries m w n e =
    let h : entries ≡ m = ground arith in (subst WellFormed h w, subst (KeysNodup {V = Str}) h n)
parse_lines_lem (l ∷ ls) entries m w n e = elim (Result-cases (parse_line (trim_space l) entries)) [
  | inl (x, failed) ↦ absurd (ground arith)
  | inr (entries', read) ↦ elim (parse_line-Adds (trim_space l) entries entries' read) [
    | inl same ↦ parse_lines_lem ls entries m w n (ground arith)
    | inr a ↦
        parse_lines_lem ls entries' m (Adds-WellFormed entries entries' a w)
          (Adds-KeysNodup entries entries' a n) (ground arith)
  ]
]

nothing : WellFormed []
unfolding lookup
nothing user hash found = absurd (ground arith)

-- A password file that is accepted gives each user once, with a name that is not empty and has no
-- colon and a hash in one of the bcrypt formats; and it gives at least one user.
pub parse_htpasswd_lem :
    (lines : List Str) (scanned : Bool) (m : StrMap Str)
    → parse_htpasswd lines scanned ≡ ok m
    → WellFormed m × KeysNodup m × (is_empty m ≡ false)
unfolding parse_htpasswd
parse_htpasswd_lem lines scanned m e = elim (Result-cases (parse_lines lines [])) [
  | inl (x, failed) ↦ absurd (ground arith)
  | inr (m', read) ↦
      let h : m' ≡ m = ground arith in
      let (w, n) = parse_lines_lem lines [] m' nothing tt read in
      (subst WellFormed h w, subst (KeysNodup {V = Str}) h n, ground arith)
]
