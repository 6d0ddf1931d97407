-- ===== src/Playwright/SessionId.antt =====
-- playwright.go: the ids of Playwright sessions. `random` gives the bytes of each read of crypto/rand.
use selenwright.Prelude.{
  ℕ, zero, suc, ◌+◌, ◌<◌, ◌≤◌, ◌≡◌, Bool, true, List, [], ◌∷◌, Option, none, some, Str, ◌-◌, ◌/◌,
  ◌%◌, ltb, leb, eqb, is_some, is_empty, trim_space, length, all, lookup, ◌&&◌, ◌||◌, if◌then◌else◌,
  Result, ok, err, arith, subst, sym, refl, Bool-cases, Option-cases, inl, inr, not,
}
use selenwright.Session.{Session, SessionMap}

abbrev pub hex_digit : ℕ → ℕ
hex_digit n = if ltb n 10 then b'0' + n else b'a' + (n - 10)

-- `hex.EncodeToString`
unfoldable pub hex_encode : List ℕ → Str
hex_encode [] = []
hex_encode (b ∷ bs) = hex_digit (b / 16) ∷ hex_digit (b % 16) ∷ hex_encode bs

pub data SessionIdError : Type 0 where
  random_failed invalid_external external_collision : SessionIdError

-- The loop of newPlaywrightSessionID from read `k` on; `none` is the end of the fuel.
unfoldable pub new_playwright_session_id :
    ℕ → (ℕ → Option (List ℕ)) → ℕ → SessionMap → Option (Result SessionIdError Str)
new_playwright_session_id zero random k sessions = none
new_playwright_session_id (suc fuel) random k sessions =
    let again = new_playwright_session_id fuel random (suc k) sessions in
    elim (random k) [
      | none ↦ some (err random_failed)
      | some bytes ↦
          let id = hex_encode bytes in if is_some (lookup id sessions) then again else some (ok id)
    ]

-- The class of ^[a-zA-Z0-9_-]{1,128}$.
abbrev pub id_byte : ℕ → Bool
id_byte c =
    (leb b'a' c && leb c b'z')
    || (leb b'A' c && leb c b'Z')
    || (leb b'0' c && leb c b'9')
    || eqb c b'_'
    || eqb c b'-'

unfoldable pub external_session_id_pattern : Str → Bool
external_session_id_pattern s = leb 1 (length s) && leb (length s) 128 && all id_byte s

-- `header` is the value of X-Selenwright-External-Session-ID, empty where it is missing.
unfoldable pub resolve_playwright_session_id :
    ℕ → (ℕ → Option (List ℕ)) → Str → SessionMap → Option (Result SessionIdError Str)
unfolding external_session_id_pattern
resolve_playwright_session_id fuel random header sessions =
    let external = trim_space header in
    if is_empty external
    then new_playwright_session_id fuel random 0 sessions
    else if not (external_session_id_pattern external)
    then some (err invalid_external)
    else if is_some (lookup external sessions)
    then some (err external_collision)
    else some (ok external)

hex_encode-id : (bs : List ℕ) → all (λ b. ltb b 256) bs ≡ true → all id_byte (hex_encode bs) ≡ true
unfolding hex_encode
hex_encode-id [] h = refl
hex_encode-id (b ∷ bs) h = ground (arith, hex_encode-id bs)

hex_encode-length : (bs : List ℕ) → length (hex_encode bs) ≡ length bs + length bs
unfolding hex_encode
hex_encode-length [] = refl
hex_encode-length (b ∷ bs) = ground (arith, hex_encode-length bs)

-- What every id of a new session is: in the pattern, so that it is one element of a path, and not
-- the id of a running session.
abbrev pub IsNewId : SessionMap → Str → Type 0
IsNewId sessions id = (external_session_id_pattern id ≡ true) × (lookup id sessions ≡ none)

-- A read gives sixteen bytes, or fails.
abbrev pub IsRandom : (ℕ → Option (List ℕ)) → Type 0
IsRandom random =
    (k : ℕ) (bs : List ℕ) → random k ≡ some bs → (length bs ≡ 16) × (all (λ b. ltb b 256) bs ≡ true)

-- What the read `k` of the loop ends it with.
abbrev pub ends_at : (ℕ → Option (List ℕ)) → SessionMap → ℕ → Bool
ends_at random sessions k = elim (random k) [
  | none ↦ true
  | some bytes ↦ not (is_some (lookup (hex_encode bytes) sessions))
]

-- Neither outcome, or the id of no session.
abbrev pub Resolved : SessionMap → Result SessionIdError Str → Type 0
Resolved sessions (err e) = Unit
Resolved sessions (ok id) = IsNewId sessions id

drawn :
    (random : ℕ → Option (List ℕ)) (k : ℕ) (sessions : SessionMap) (bs : List ℕ)
    → IsRandom random
    → random k ≡ some bs
    → lookup (hex_encode bs) sessions ≡ none
    → IsNewId sessions (hex_encode bs)
unfolding external_session_id_pattern
drawn random k sessions bs fair got fresh =
    let (len, bytes) = fair k bs got in
    (ground (arith, len, hex_encode-length bs, hex_encode-id bs bytes), fresh)

-- A read that gives the id of a session is not the one that ends the loop.
next :
    (random : ℕ → Option (List ℕ)) (j k : ℕ) (sessions : SessionMap) (bytes : List ℕ)
    (sess : Session)
    → j ≤ k
    → ends_at random sessions k ≡ true
    → random j ≡ some bytes
    → lookup (hex_encode bytes) sessions ≡ some sess
    → suc j ≤ k
next random j k sessions bytes sess below ends got taken = elim (Bool-cases (eqb j k)) [
  | inr other ↦ ground (arith, other)
  | inl same ↦
      let at : ends_at random sessions j ≡ true =
        subst (λ i. ends_at random sessions i ≡ true) (sym (ground (arith, same))) ends in
      absurd (ground (arith, at, got, taken))
]

new_playwright_session_id_total :
    (fuel : ℕ) (random : ℕ → Option (List ℕ)) (j k : ℕ) (sessions : SessionMap)
    → IsRandom random
    → ends_at random sessions k ≡ true
    → j ≤ k
    → k < j + fuel
    → (r : Result SessionIdError Str) × (new_playwright_session_id fuel random j sessions ≡ some r)
      × Resolved sessions r
unfolding new_playwright_session_id
new_playwright_session_id_total zero random j k sessions fair ends below enough =
    absurd (omega arith)
new_playwright_session_id_total (suc fuel) random j k sessions fair ends below enough =
    elim (Option-cases (random j)) [
      | inl failed ↦ (err random_failed, ground (arith, failed), tt)
      | inr (bytes, got) ↦ elim (Option-cases (lookup (hex_encode bytes) sessions)) [
        | inl fresh ↦ (
          ok (hex_encode bytes),
          ground (arith, got, fresh),
          drawn random j sessions bytes fair got fresh,
        )
        | inr (sess, taken) ↦
            let later : suc j ≤ k = next random j k sessions bytes sess below ends got taken in
            let (r, e, good) =
              new_playwright_session_id_total fuel random (suc j) k sessions fair ends later
                (omega (arith, enough)) in
            (r, ground (arith, got, taken, e), good)
      ]
    ]

-- Where the reads of random bytes give sixteen bytes or fail, and the read `k` fails or gives the
-- id of no session, `suc k` rounds settle on an id or an error; and an id, be it the header's
-- or a new one, has 1 to 128 letters, digits, dashes and underscores and is the id of no session.
pub resolve_playwright_session_id-Resolved :
    (fuel : ℕ) (random : ℕ → Option (List ℕ)) (header : Str) (k : ℕ) (sessions : SessionMap)
    → IsRandom random
    → ends_at random sessions k ≡ true
    → k < fuel
    → (r : Result SessionIdError Str) × (resolve_playwright_session_id fuel random header sessions
        ≡ some r)
      × Resolved sessions r
unfolding resolve_playwright_session_id
resolve_playwright_session_id-Resolved fuel random header k sessions fair ends enough =
    let external = trim_space header in
    elim (Bool-cases (is_empty external)) [
      | inl e ↦
          let (r, p, good) =
            new_playwright_session_id_total fuel random 0 k sessions fair ends (omega arith)
              (omega (arith, enough)) in
          (r, ground (arith, e, p), good)
      | inr e ↦ elim (Bool-cases (external_session_id_pattern external)) [
        | inr bad ↦ (err invalid_external, ground (arith, e, bad), tt)
        | inl fits ↦ elim (Option-cases (lookup external sessions)) [
          | inr (sess, taken) ↦ (err external_collision, ground (arith, e, fits, taken), tt)
          | inl fresh ↦ (ok external, ground (arith, e, fits, fresh), (fits, fresh))
        ]
      ]
    ]
