-- ===== src/Handlers/Capabilities/Sizes.antt =====
-- The screen resolution that a session gets is one that the video size can be read off.
use selenwright.Prelude.{
  ℕ, ◌≡◌, refl, true, List, [], ◌∷◌, ◌++◌, none, some, Str, lit, ◌==◌, is_empty, split, arith,
  Bool-cases, ◌≢◌, Option-cases, inl, inr, eqb,
}
use selenwright.Handlers.Capabilities.{
  digits, short_parts, short_format, full_parts, full_format, get_screen_resolution,
  get_video_screen_size, default_resolution,
}

some_part : (sep : ℕ) (s : Str) → (p : Str) × (ps : List Str) × (split sep s ≡ p ∷ ps)
unfolding split
some_part sep [] = ([], [], refl)
some_part sep (c ∷ s) =
    let (p, ps, e) = some_part sep s in
    elim (Bool-cases (eqb c sep)) [
      | inl here ↦ ([], split sep s, rw here)
      | inr other ↦ (c ∷ p, ps, rw (other, e))
    ]

-- A separator in the middle splits the text there.
split-append : (sep : ℕ) (s t : Str) → split sep (s ++ sep ∷ t) ≡ split sep s ++ split sep t
unfolding split
split-append sep [] t = ground arith
split-append sep (c ∷ s) t =
    let (p, ps, e) = some_part sep s in ground (arith, e, split-append sep s t)

short_parts-two :
    (ps : List Str)
    → short_parts ps ≡ true
    → (w : Str) × (h : Str) × (ps ≡ w ∷ h ∷ []) × (digits w ≡ true) × (digits h ≡ true)
unfolding short_parts
short_parts-two [] e = cc
short_parts-two (w ∷ []) e = cc
short_parts-two (w ∷ h ∷ []) e = (w, h, refl, ground arith, ground arith)
short_parts-two (w ∷ h ∷ d ∷ rest) e = cc

-- A size with the default depth behind it is in the full format.
full_format-depth :
    (s : Str) → short_format s ≡ true → (size : Str) × (full_format (s ++ lit "x24") ≡ some size)
unfolding short_format full_format
full_format-depth s e =
    let (w, h, parts, dw, dh) = short_parts-two (split b'x' s) e in
    (
      w ++ b'x' ∷ h,
      rw (split-append b'x' s (lit "24"), parts)
          (unfold split full_parts ◌==◌ in (ground (arith, dw, dh))),
    )

-- Every resolution that getScreenResolution accepts is one that shortenScreenResolution can take
-- apart: getVideoScreenSize does not panic on it, whatever video size was asked for.
pub get_video_screen_size_total :
    (input video resolution : Str)
    → get_screen_resolution input ≡ some resolution
    → get_video_screen_size video resolution ≢ none
unfolding get_screen_resolution get_video_screen_size
get_video_screen_size_total input video resolution e bad = elim (Bool-cases (is_empty input)) [
  | inl default ↦
      let h : default_resolution ≡ resolution = ground arith in
      unfold full_format split ◌==◌ in (ground arith)
  | inr given ↦ elim (Option-cases (full_format input)) [
    | inr (size, full) ↦ ground arith
    | inl other ↦ ground (arith, full_format-depth input)
  ]
]
