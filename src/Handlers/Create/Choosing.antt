-- ===== src/Handlers/Create/Choosing.antt =====
-- Where the loop over firstMatch panics.
use selenwright.Prelude.{
  ◌≡◌, ◌≢◌, refl, Bool, true, false, any, is_some, not, Option, List, [], ◌∷◌, none, some, arith,
  Result, Result-cases, Option-cases, inl, inr,
}
use selenwright.Session.Caps.{Caps, WireCaps, process_extension_capabilities}
use selenwright.Session.Sanitize.{sanitize}
use selenwright.Handlers.Capabilities.{get_session_timeout, get_screen_resolution}
use selenwright.Handlers.Capabilities.Sizes.{get_video_screen_size_total}
use selenwright.Handlers.Create.{
  Config, Environment, Body, unreadable, malformed, parsed, CreateError, CreateEnd, panicked,
  replies, Chosen, prepare, choose, alternatives,
}

-- No capabilities make the loop over firstMatch panic.
pub prepare_total :
    (cfg : Config) (env : Environment) (is_admin : Bool) (given : Caps)
    → prepare cfg env is_admin given ≢ none
unfolding prepare
prepare_total cfg env is_admin given bad =
    elim (Result-cases (sanitize given cfg.caps_policy is_admin)) [
      | inl (e, p) ↦ ground (arith, p)
      | inr (c, p) ↦
          elim (Option-cases (
            get_session_timeout env.parse_duration c.session_timeout cfg.max_timeout cfg.timeout)) [
              | inl none_t ↦ ground (arith, p, none_t)
              | inr (t, some_t) ↦ elim (Option-cases (get_screen_resolution c.screen_resolution)) [
                | inl none_r ↦ ground (arith, p, some_t, none_r)
                | inr (r, some_r) ↦ ground (
                  arith,
                  p,
                  some_t,
                  some_r,
                  get_video_screen_size_total c.screen_resolution c.video_screen_size r some_r,
                )
              ]
            ]
    ]

-- One of the alternatives is a null.
abbrev pub has_nil : List (Option WireCaps) → Bool
has_nil fmcs = any (λ fmc. not (is_some fmc)) fmcs

abbrev pub has_null : Body → Bool
has_null unreadable = false
has_null malformed = false
has_null (parsed desired always first_match) = has_nil first_match

-- The first of the alternatives is a null.
abbrev pub nil_first : List (Option WireCaps) → Bool
nil_first [] = false
nil_first (none ∷ rest) = true
nil_first (some fmc ∷ rest) = false

abbrev pub null_first : Body → Bool
null_first unreadable = false
null_first malformed = false
null_first (parsed desired always first_match) = nil_first first_match

abbrev pub is_panicked : CreateEnd → Bool
is_panicked panicked = true
is_panicked (replies r) = false

-- A null that comes first makes the loop panic.
pub nil_first-choose :
    (cfg : Config) (env : Environment) (is_admin : Bool) (base empty : WireCaps)
    (fmcs : List (Option WireCaps)) (made : Result CreateError Chosen)
    → choose cfg env is_admin base (alternatives empty fmcs) ≡ some made
    → nil_first fmcs ≡ false
unfolding choose
nil_first-choose cfg env is_admin base empty [] made h = refl
nil_first-choose cfg env is_admin base empty (none ∷ rest) made h = absurd (cc)
nil_first-choose cfg env is_admin base empty (some fmc ∷ rest) made h = refl

-- Only a null makes it panic.
pub choose-none :
    (cfg : Config) (env : Environment) (is_admin : Bool) (base : WireCaps)
    (fmcs : List (Option WireCaps))
    → choose cfg env is_admin base fmcs ≡ none
    → has_nil fmcs ≡ true
unfolding choose
choose-none cfg env is_admin base [] h = absurd (ground (arith, h))
choose-none cfg env is_admin base (none ∷ rest) h = refl
choose-none cfg env is_admin base (some fmc ∷ rest) h =
    let c = process_extension_capabilities env.merge_override (env.merge base fmc) in
    ground (arith, h, prepare_total cfg env is_admin c, choose-none cfg env is_admin base rest)

pub alternatives-has_nil :
    (empty : WireCaps) (fmcs : List (Option WireCaps))
    → has_nil (alternatives empty fmcs) ≡ has_nil fmcs
alternatives-has_nil empty [] = refl
alternatives-has_nil empty (fmc ∷ rest) = refl
