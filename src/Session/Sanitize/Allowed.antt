-- ===== src/Session/Sanitize/Allowed.antt =====
-- What capabilities that pass Sanitize look like.
use selenwright.Prelude.{
  ℕ, ◌≤◌, ◌≡◌, refl, ◌≢◌, ◌⊎◌, inl, inr, Bool, true, false, List, [], ◌∷◌, Str, StrMap, ◌==◌,
  is_empty, length, length-take-le, all, not, ok, leb, ltb, eqb, ==_iff, ◌&&◌, ◌||◌, arith,
  Bool-cases, Result-cases, All, subst, suc,
}
use selenwright.Session.Caps.{Caps}
use selenwright.Session.Sanitize.{
  is_alnum, base, policy_strict, label_re, cut, cut_at, check_labels, check_privileges,
  bad_file_name, sanitize, file_name_re, label_max_len,
}

-- A printable ASCII text of at most 128 bytes.
abbrev pub IsLabel : Str → Type 0
IsLabel s = All (λ c. (0x20 ≤ c) × (c ≤ 0x7e)) s × (length s ≤ 128)

label_re-IsLabel : (s : Str) → label_re s ≡ true → IsLabel s
unfolding label_re
label_re-IsLabel s h = (printable s (ground arith), ground arith)
  where
    printable :
        (t : Str)
        → all (λ c. leb 0x20 c && leb c 0x7e) t ≡ true
        → All (λ c. (0x20 ≤ c) × (c ≤ 0x7e)) t
    printable [] h = tt
    printable (c ∷ t) h = ground (arith, printable t)

abbrev pub AreLabels : StrMap Str → Type 0
AreLabels m = All (λ (kv : Str × Str). IsLabel kv.0 × IsLabel kv.1) m

check_labels-AreLabels : (m m' : StrMap Str) → check_labels m ≡ ok m' → AreLabels m'
unfolding check_labels
check_labels-AreLabels [] m' e = let h : [] ≡ m' = ground arith in subst AreLabels h tt
check_labels-AreLabels ((k, v) ∷ m) m' e = elim (Result-cases (check_labels m)) [
  | inl (x, failed) ↦ absurd (ground arith)
  | inr (rest, checked) ↦
      let h : ((k, cut v) ∷ rest) ≡ m' = ground arith in
      subst AreLabels h (
        (label_re-IsLabel k (ground arith), label_re-IsLabel (cut v) (ground arith)),
        check_labels-AreLabels m rest checked,
      )
]

-- A name of a file in its directory: the characters a-z, A-Z, 0-9, `.`, `_` and `-`, so no slash.
abbrev pub IsFileName : Str → Type 0
IsFileName s = All (λ c. c ≢ b'/') s × (length s ≤ 128)

file_name_re-IsFileName : (s : Str) → file_name_re s ≡ true → IsFileName s
unfolding file_name_re
file_name_re-IsFileName s h = (plain s (ground arith), ground arith)
  where
    plain :
        (t : Str)
        → all (λ c. is_alnum c || eqb c b'.' || eqb c b'_' || eqb c b'-') t ≡ true
        → All (λ c. c ≢ b'/') t
    plain [] h = tt
    plain (c ∷ t) h = ((λ e. ground arith), plain t (ground arith))

bad_file_name-IsFileName : (s : Str) → bad_file_name s ≡ false → IsFileName s
unfolding bad_file_name
bad_file_name-IsFileName [] h = (tt, omega arith)
bad_file_name-IsFileName (c ∷ s) h =
    let same : base (c ∷ s) ≡ c ∷ s = (==_iff (base (c ∷ s)) (c ∷ s)).0 (ground arith) in
    file_name_re-IsFileName (c ∷ s) (subst (λ t. file_name_re t ≡ true) same (ground arith))

-- The policy restricts a client: it is the strict one, which is also the default.
abbrev pub is_restricted : Str → Bool → Bool
is_restricted policy is_admin = (is_empty policy || policy == policy_strict) && not is_admin

-- What an accepted request for a session is limited to.
pub record IsAllowed (policy : Str) (is_admin : Bool) (c : Caps) : Type 0 where
  pub unprivileged :
      (is_restricted policy is_admin ≡ false)
      ⊎ ((c.env ≡ [])
          × (c.dns_servers ≡ [])
          × (c.hosts_entries ≡ [])
          × (c.additional_networks ≡ [])
          × (c.application_containers ≡ []))
  pub test_name : IsLabel c.test_name
  pub labels : AreLabels c.labels
  pub video_name : IsFileName c.video_name
  pub log_name : IsFileName c.log_name

empty_of : {A : Type 0} (xs : List A) → not (is_empty xs) ≡ false → xs ≡ []
empty_of [] h = refl
empty_of (x ∷ xs) h = cc

check_privileges_empty :
    (c : Caps)
    → check_privileges c ≡ ok tt
    → (c.env ≡ [])
      × (c.dns_servers ≡ [])
      × (c.hosts_entries ≡ [])
      × (c.additional_networks ≡ [])
      × (c.application_containers ≡ [])
unfolding check_privileges
check_privileges_empty c h = (
  empty_of c.env (ground arith),
  empty_of c.dns_servers (ground arith),
  empty_of c.hosts_entries (ground arith),
  empty_of c.additional_networks (ground arith),
  empty_of c.application_containers (ground arith),
)

name_passes :
    (s : Str) → (not (is_empty s) && not (label_re (cut s))) ≡ false → label_re (cut s) ≡ true
name_passes [] h = unfold label_re cut cut_at in refl
name_passes (c ∷ s) h = ground arith

-- Capabilities that Sanitize accepts, as it leaves them: under the strict policy, the default, a client who is
-- not an admin sets no environment, DNS servers, hosts, networks or containers; the test's name
-- and the labels are printable ASCII of at most 128 bytes; and the names of the video and log
-- files have at most 128 bytes and no slash.
pub sanitize-IsAllowed :
    (c c' : Caps) (policy : Str) (is_admin : Bool)
    → sanitize c policy is_admin ≡ ok c'
    → IsAllowed policy is_admin c'
unfolding sanitize
sanitize-IsAllowed c c' policy is_admin e = elim (Result-cases (check_labels c.labels)) [
  | inl (x, failed) ↦ absurd (ground arith)
  | inr (labels, checked) ↦
      let h : record c { test_name = cut c.test_name; labels = labels } ≡ c' = ground arith in
      subst (IsAllowed policy is_admin) h (record {
        unprivileged = elim (Bool-cases (is_restricted policy is_admin)) [
          | inl strict ↦ inr (check_privileges_empty c (ground arith))
          | inr loose ↦ inl loose
        ];
        test_name = label_re-IsLabel (cut c.test_name) (name_passes c.test_name (ground arith));
        labels = check_labels-AreLabels c.labels labels checked;
        video_name = bad_file_name-IsFileName c.video_name (ground arith);
        log_name = bad_file_name-IsFileName c.log_name (ground arith);
      })
]

cut_at_idem : (n : ℕ) (s : Str) → cut_at n (cut_at n s) ≡ cut_at n s
unfolding cut_at
cut_at_idem n s = elim (Bool-cases (ltb n (length s))) [
  | inl long ↦ ground (arith, length-take-le n s, long)
  | inr short ↦ ground (arith, short)
]

cut_idem : (s : Str) → cut (cut s) ≡ cut s
unfolding cut
cut_idem s = cut_at_idem label_max_len s

check_labels_idem : (m m' : StrMap Str) → check_labels m ≡ ok m' → check_labels m' ≡ ok m'
unfolding check_labels
check_labels_idem [] m' e =
    let h : [] ≡ m' = ground arith in subst (λ x. check_labels x ≡ ok x) h refl
check_labels_idem ((k, v) ∷ m) m' e = elim (Result-cases (check_labels m)) [
  | inl (x, failed) ↦ absurd (ground arith)
  | inr (rest, checked) ↦
      let h : ((k, cut v) ∷ rest) ≡ m' = ground arith in
      subst (λ x. check_labels x ≡ ok x) h
        (ground (arith, cut_idem v, check_labels_idem m rest checked))
]

cut_at_cons : (n c : ℕ) (s : Str) → is_empty (cut_at (suc n) (c ∷ s)) ≡ false
unfolding cut_at
cut_at_cons n c s = elim (Bool-cases (ltb (suc n) (length (c ∷ s)))) [
  | inl long ↦ rw long
  | inr short ↦ rw short
]

cut_empty : (s : Str) → is_empty (cut s) ≡ is_empty s
cut_empty [] = unfold cut cut_at in refl
cut_empty (c ∷ s) = unfold cut in (cut_at_cons 127 c s)

-- Sanitizing what Sanitize has accepted accepts it again and changes nothing more.
sanitize_idempotent :
    (c c' : Caps) (policy : Str) (is_admin : Bool)
    → sanitize c policy is_admin ≡ ok c'
    → sanitize c' policy is_admin ≡ ok c'
unfolding sanitize
sanitize_idempotent c c' policy is_admin e = elim (Result-cases (check_labels c.labels)) [
  | inl (x, failed) ↦ absurd (ground arith)
  | inr (labels, checked) ↦
      let h : record c { test_name = cut c.test_name; labels = labels } ≡ c' = ground arith in
      subst (λ (x : Caps). sanitize x policy is_admin ≡ ok x) h
        (unfold check_privileges in
          (ground (
            arith,
            cut_idem c.test_name,
            cut_empty c.test_name,
            check_labels_idem c.labels labels checked,
          )))
]
