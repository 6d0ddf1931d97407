-- ===== src/Tests/Stack.antt =====
-- Runs of an update of the stack.
use selenwright.Prelude.{
  ℕ, ◌+◌, ◌*◌, ◌^◌, ◌<◌, ◌⊎◌, none, ◌≡◌, ◌≤◌, refl, true, false, List, [], ◌∷◌, some, Str, StrMap,
  lit, pos, negsuc, is_empty, lookup, insert, elem, ltb, length, All, has_prefix, trim_space,
  equal_fold, not, if◌then◌else◌, ◌==◌, ok,
}
use selenwright.Stack.Images.{ImageRef}
use selenwright.Stack.Quoting.{shell_single_quote, shell_word, outside, shell_single_quote-read}
use selenwright.Stack.Candidates.{
  Semver, normalize_tag, strip_leading_dots, may_follow, gather_candidates, pick_candidate_versions,
  find_candidate_by_canonical,
}
use selenwright.Stack.Candidates.Newer.{IsCandidate, Rearranges, pick_candidate_versions-newer}
use selenwright.Stack.Hub.{Reply, responds, no_response}
use selenwright.Stack.Hub.Recent.{call, calls, fetched_at, kept_for, calls-recent}
use selenwright.Stack.Plan.{
  PlanEntry, Surroundings, selenwright_ns, carry_out, make_plan, plan_entry, image_at,
  extend_plan_with_current_pins, launch, pull_changed, update_of,
}
use selenwright.Stack.Plan.Pins.{Has, PinsTo, Upgrades, carry_out-covers}

shell_single_quote-read_example :
    shell_word outside (shell_single_quote (lit "it's; rm -rf /")) ≡ some (lit "it's; rm -rf /")
shell_single_quote-read_example = shell_single_quote-read (lit "it's; rm -rf /")

-- A stand-in for versions: two digits of a tag are compared, and there are no pre-releases.
abbrev second : Str → ℕ
second [] = 0
second (c ∷ []) = c
second (c ∷ d ∷ s) = d

abbrev versions : Semver
versions = record {
  is_valid = λ t. not (is_empty t);
  canonical = λ t. t;
  prerelease = λ t. [];
  compare = λ a b.
      if ltb (second b) (second a)
      then pos 1
      else if ltb (second a) (second b)
      then negsuc 0
      else pos 0;
  sort = λ lt cs. cs;
}

versions-Rearranges : Rearranges versions
versions-Rearranges = λ lt P cs h. h

abbrev tags : List Str
tags = lit "v1" ∷ lit "v.3" ∷ lit "2" ∷ lit "v4" ∷ []

pick_candidate_versions-newer_example :
    (length (pick_candidate_versions versions (lit "v1") tags 2) ≤ 2)
    × All
        (IsCandidate versions (normalize_tag versions (lit "v1")) tags)
        (pick_candidate_versions versions (lit "v1") tags 2)
pick_candidate_versions-newer_example =
    pick_candidate_versions-newer versions (lit "v1") tags 2 versions-Rearranges

abbrev image_of : Str → Str → ImageRef
image_of repo tag = record {
  registry = lit "docker.io";
  namespace = lit "selenwright";
  repo = repo;
  tag = tag;
}

abbrev running : StrMap ImageRef
running =
    (lit "hub", image_of (lit "hub") (lit "v1")) ∷ (lit "ui", image_of (lit "ui") (lit "v1")) ∷ []

abbrev asked : StrMap Str
asked = (lit "hub", lit "3") ∷ []

abbrev env : Surroundings
env = record {
  admits = true;
  available = true;
  services = some asked;
  has_metadata = true;
  containers = some [];
  resolve = λ c. [];
  semver = versions;
  fetch = λ namespace repo. some tags;
  pulls = λ image. true;
  updater_ready = true;
  creates = true;
  starts = true;
  sort_entries = λ ps. ps;
  sort_strings = λ ss. ss;
}

abbrev pinned : List PlanEntry
pinned =
    (record {
      service = lit "hub";
      image = lit "selenwright/hub:v.3";
      tag = lit "v.3";
      original = lit "3";
    })
    ∷ (record {
      service = lit "ui";
      image = lit "selenwright/ui:v1";
      tag = lit "v1";
      original = lit "v1";
    })
    ∷ []

carried_out : carry_out env asked running ≡ ok (update_of env (lit "hub" ∷ []) pinned)
unfolding carry_out make_plan plan_entry image_at extend_plan_with_current_pins launch pull_changed
    normalize_tag strip_leading_dots may_follow gather_candidates pick_candidate_versions
    find_candidate_by_canonical lookup insert ◌==◌ has_prefix trim_space equal_fold elem
carried_out = refl

carry_out-covers_example :
    ((service requested : Str)
      → lookup service asked ≡ some requested
      → Has (Upgrades env running service requested) pinned)
    × ((service : Str) (ref : ImageRef)
        → lookup service asked ≡ none
        → lookup service running ≡ some ref
        → equal_fold ref.namespace selenwright_ns ≡ true
        → is_empty ref.tag ≡ false
        → Has (PinsTo service ref ref.tag) pinned)
unfolding update_of
carry_out-covers_example =
    carry_out-covers env asked running (update_of env (lit "hub" ∷ []) pinned) carried_out

-- Docker Hub has one page for every repository, until it fails after a minute.
abbrev hub : ℕ → Str → Reply
hub t url =
    if ltb t (60 * 10 ^ 9)
    then responds 200 (some (none, record { name = lit "v1"; last_updated = 0 } ∷ []))
    else no_response

abbrev hub_calls : List (ℕ × ℕ × Str × Str)
hub_calls = (0, 1, lit "selenwright", lit "hub") ∷ (2, 3, lit "selenwright", lit "ui") ∷ []

calls-recent_example :
    let answer =
      (call
        (λ s. s)
        (lit "https://hub.docker.com/v2/repositories")
        hub
        (100 * 10 ^ 9, 101 * 10 ^ 9, lit "selenwright", lit "hub")
        (calls (λ s. s) (lit "https://hub.docker.com/v2/repositories") hub hub_calls [])).1 in
    (t : ℕ) × (answer
      ≡ fetched_at
          (λ s. s)
          (lit "https://hub.docker.com/v2/repositories")
          hub
          t
          (lit "selenwright")
          (lit "hub"))
    × ((t ≡ 101 * 10 ^ 9) ⊎ (100 * 10 ^ 9 < t + kept_for answer))
calls-recent_example =
    calls-recent (λ s. s) (lit "https://hub.docker.com/v2/repositories") hub hub_calls
      (100 * 10 ^ 9) (101 * 10 ^ 9) (lit "selenwright") (lit "hub") (refl, (refl, tt)) refl
