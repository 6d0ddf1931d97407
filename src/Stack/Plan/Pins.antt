-- ===== src/Stack/Plan/Pins.antt =====
-- An update drops no pin.
use selenwright.Prelude.{
  ◌≡◌, refl, true, false, List, [], ◌∷◌, ◌++◌, none, some, Str, StrMap, lookup, elem, is_empty,
  equal_fold, ◌==◌, ==_iff, ◌||◌, if◌then◌else◌, ok, arith, Bool-cases, Option-cases, Result-cases,
  inl, inr, ◌⊎◌, map, subst, sym, ap, ◌∙◌, not,
}
use selenwright.Stack.Images.{ImageRef}
use selenwright.Stack.Candidates.{
  Semver, normalize_tag, pick_candidate_versions, find_candidate_by_canonical,
}
use selenwright.Stack.Plan.{
  PlanEntry, image_at, plan_entry, make_plan, pins, current_pin, extend_plan_with_current_pins,
  Surroundings, Update, carry_out, selenwright_ns, launch, update_of, pull_changed,
}

-- One of the entries is such.
abbrev pub Has : (PlanEntry → Type 0) → List PlanEntry → Type 0
Has P [] = ⊥
Has P (p ∷ plan) = P p ⊎ Has P plan

-- The entry pins the service to that tag of its running image's repository.
abbrev pub PinsTo : Str → ImageRef → Str → PlanEntry → Type 0
PinsTo service ref tag p =
    (p.service ≡ service)
    × (p.tag ≡ tag)
    × (p.image ≡ ref.namespace ++ b'/' ∷ ref.repo ++ b':' ∷ tag)

-- The entry pins the service to a tag that is published for its running image, is one of the
-- candidates to follow that image's tag, and is the one asked for, as a text or as a version.
abbrev pub Upgrades : Surroundings → StrMap ImageRef → Str → Str → PlanEntry → Type 0
Upgrades env refs service requested p =
    (ref : ImageRef) × (names : List Str) × (tag : Str) × (lookup service refs ≡ some ref)
    × (env.fetch ref.namespace ref.repo ≡ some names)
    × (elem tag (pick_candidate_versions env.semver ref.tag names 50) ≡ true)
    × ((tag ≡ normalize_tag env.semver requested)
        ⊎ (normalize_tag env.semver tag ≡ normalize_tag env.semver requested))
    × PinsTo service ref tag p

Has-append :
    (P : PlanEntry → Type 0) (plan : List PlanEntry) (p : PlanEntry)
    → Has P plan
    → Has P (plan ++ p ∷ [])
Has-append P [] p h = absurd h
Has-append P (q ∷ plan) p (inl here) = inl here
Has-append P (q ∷ plan) p (inr there) = inr (Has-append P plan p there)

Has-last :
    (P : PlanEntry → Type 0) (plan : List PlanEntry) (p : PlanEntry) → P p → Has P (plan ++ p ∷ [])
Has-last P [] p h = inl h
Has-last P (q ∷ plan) p h = inr (Has-last P plan p h)

extend-keeps :
    (P : PlanEntry → Type 0) (plan : List PlanEntry) (refs : StrMap ImageRef)
    (requested : StrMap Str)
    → Has P plan
    → Has P (extend_plan_with_current_pins plan refs requested)
unfolding extend_plan_with_current_pins
extend-keeps P plan [] requested h = h
extend-keeps P plan ((other, ref) ∷ refs) requested h =
    elim (Bool-cases (pins requested other ref)) [
      | inr skipped ↦ rw skipped (extend-keeps P plan refs requested h)
      | inl pinned ↦ rw pinned (
          extend-keeps P (plan ++ current_pin other ref ∷ []) refs requested
            (Has-append P plan (current_pin other ref) h))
    ]

current_pin-PinsTo :
    (service : Str) (ref : ImageRef) → PinsTo service ref ref.tag (current_pin service ref)
unfolding image_at
current_pin-PinsTo service ref = (refl, refl, refl)

extend-pins :
    (service : Str) (ref : ImageRef) (plan : List PlanEntry) (refs : StrMap ImageRef)
    (requested : StrMap Str)
    → lookup service refs ≡ some ref
    → pins requested service ref ≡ true
    → Has (PinsTo service ref ref.tag) (extend_plan_with_current_pins plan refs requested)
unfolding extend_plan_with_current_pins lookup
extend-pins service ref plan [] requested found pinned = absurd (cc)
extend-pins service ref plan ((other, r) ∷ refs) requested found pinned =
    elim (Bool-cases (other == service)) [
      | inr apart ↦
          extend-pins service ref
            (if pins requested other r then plan ++ current_pin other r ∷ [] else plan) refs
            requested (ground (arith, found, apart)) pinned
      | inl same ↦
          let is_ref : r ≡ ref = ground (arith, found, same) in
          let is_service : other ≡ service = ground (arith, same, ==_iff other service) in
          let here : pins requested other r ≡ true =
            subst (λ x. pins requested other x ≡ true) (sym is_ref)
              (subst (λ x. pins requested x ref ≡ true) (sym is_service) pinned) in
          let this : PinsTo service ref ref.tag (current_pin other r) =
            subst (λ x. PinsTo service x x.tag (current_pin other r)) is_ref
              (subst (λ x. PinsTo x r r.tag (current_pin other r)) is_service
                (current_pin-PinsTo other r)) in
          rw here (
            extend-keeps (PinsTo service ref ref.tag) (plan ++ current_pin other r ∷ []) refs
              requested (Has-last (PinsTo service ref ref.tag) plan (current_pin other r) this))
    ]

found_candidate :
    (v : Semver) (cands : List Str) (canonical tag : Str)
    → find_candidate_by_canonical v cands canonical ≡ some tag
    → (elem tag cands ≡ true) × ((tag ≡ canonical) ⊎ (normalize_tag v tag ≡ canonical))
unfolding find_candidate_by_canonical elem
found_candidate v [] canonical tag e = absurd (ground (arith, e))
found_candidate v (c ∷ cs) canonical tag e =
    elim (Bool-cases (c == canonical || normalize_tag v c == canonical)) [
      | inl fits ↦
          let same : c ≡ tag = ground (arith, e, fits) in
          let which : (c ≡ canonical) ⊎ (normalize_tag v c ≡ canonical) =
            elim (Bool-cases (c == canonical)) [
              | inl text ↦ inl ((==_iff c canonical).0 text)
              | inr other ↦
                  inr ((==_iff (normalize_tag v c) canonical).0 (ground (arith, fits, other)))
            ] in
          (
            ground (arith, same, ==_iff c tag),
            subst (λ x. (x ≡ canonical) ⊎ (normalize_tag v x ≡ canonical)) same which,
          )
      | inr unfit ↦
          let (member, which) = found_candidate v cs canonical tag (ground (arith, e, unfit)) in
          (ground (arith, member), which)
    ]

plan_entry-Upgrades :
    (env : Surroundings) (refs : StrMap ImageRef) (service requested : Str) (p : PlanEntry)
    → plan_entry env.semver env.fetch refs service requested ≡ ok p
    → Upgrades env refs service requested p
unfolding plan_entry image_at
plan_entry-Upgrades env refs service requested p e =
    let v = env.semver in
    let canonical = normalize_tag v requested in
    elim (Option-cases (lookup service refs)) [
      | inl absent ↦ absurd (ground (arith, e, absent))
      | inr (ref, running) ↦ elim (Bool-cases (not (equal_fold ref.namespace selenwright_ns))) [
        | inl foreign ↦ absurd (ground (arith, e, running, foreign))
        | inr own ↦ elim (Bool-cases (is_empty canonical)) [
          | inl bad ↦ absurd (ground (arith, e, running, own, bad))
          | inr valid ↦ elim (Option-cases (env.fetch ref.namespace ref.repo)) [
            | inl down ↦ absurd (ground (arith, e, running, own, valid, down))
            | inr (names, fetched) ↦
                let cands = pick_candidate_versions v ref.tag names 50 in
                elim (Option-cases (find_candidate_by_canonical v cands canonical)) [
                  | inl unknown ↦ absurd (ground (arith, e, running, own, valid, fetched, unknown))
                  | inr (tag, found) ↦
                      let (member, which) = found_candidate v cands canonical tag found in
                      (
                        ref,
                        names,
                        tag,
                        running,
                        fetched,
                        member,
                        which,
                        (
                          ground (arith, e, running, own, valid, fetched, found),
                          ground (arith, e, running, own, valid, fetched, found),
                          ground (arith, e, running, own, valid, fetched, found),
                        ),
                      )
                ]
          ]
        ]
      ]
    ]

make_plan-Upgrades :
    (env : Surroundings) (refs : StrMap ImageRef) (services : StrMap Str) (service requested : Str)
    (plan : List PlanEntry)
    → make_plan env.semver env.fetch refs services ≡ ok plan
    → lookup service services ≡ some requested
    → Has (Upgrades env refs service requested) plan
unfolding make_plan lookup
make_plan-Upgrades env refs [] service requested plan e asked = absurd (cc)
make_plan-Upgrades env refs ((other, wanted) ∷ rest) service requested plan e asked =
    elim (Result-cases (plan_entry env.semver env.fetch refs other wanted)) [
      | inl (bad, refused) ↦ absurd (ground (arith, e, refused))
      | inr (p, planned) ↦ elim (Result-cases (make_plan env.semver env.fetch refs rest)) [
        | inl (bad, refused) ↦ absurd (ground (arith, e, planned, refused))
        | inr (ps, others) ↦
            let whole : p ∷ ps ≡ plan = ground (arith, e, planned, others) in
            subst (Has (Upgrades env refs service requested)) whole
              (elim (Bool-cases (other == service)) [
                | inl same ↦
                    let is_service : other ≡ service = (==_iff other service).0 same in
                    let is_wanted : wanted ≡ requested = ground (arith, asked, same) in
                    inl (
                      subst (λ x. Upgrades env refs x requested p) is_service
                        (subst (λ x. Upgrades env refs other x p) is_wanted
                          (plan_entry-Upgrades env refs other wanted p planned)))
                | inr apart ↦ inr (
                    make_plan-Upgrades env refs rest service requested ps others
                      (ground (arith, asked, apart)))
              ])
      ]
    ]

update_of-plan :
    (env : Surroundings) (changed : List Str) (plan : List PlanEntry)
    → (update_of env changed plan).plan ≡ plan
unfolding update_of
update_of-plan env changed plan = refl

launch-plan :
    (env : Surroundings) (changed : List Str) (plan : List PlanEntry) (update : Update)
    → launch env changed plan ≡ ok update
    → plan ≡ update.plan
unfolding launch
launch-plan env changed plan update e = elim (Option-cases (pull_changed env.pulls changed plan)) [
  | inr (bad, failed) ↦ absurd (ground (arith, e, failed))
  | inl pulled ↦
      let done : update_of env changed plan ≡ update = ground (arith, e, pulled) in
      sym (update_of-plan env changed plan) ∙ ap (λ u. u.plan) done
]

-- An update that is carried out pins every service that was asked for to the tag that was asked for,
-- which is published and a candidate to follow the running one, and every other running service of
-- the stack's own namespace that has a tag to the image that it runs, so that no earlier pin is
-- dropped. An image is a namespace, a repository and a tag.
pub carry_out-covers :
    (env : Surroundings) (services : StrMap Str) (refs : StrMap ImageRef) (update : Update)
    → carry_out env services refs ≡ ok update
    → ((service requested : Str)
        → lookup service services ≡ some requested
        → Has (Upgrades env refs service requested) update.plan)
      × ((service : Str) (ref : ImageRef)
          → lookup service services ≡ none
          → lookup service refs ≡ some ref
          → equal_fold ref.namespace selenwright_ns ≡ true
          → is_empty ref.tag ≡ false
          → Has (PinsTo service ref ref.tag) update.plan)
unfolding carry_out
carry_out-covers env services refs update e =
    elim (Result-cases (make_plan env.semver env.fetch refs services)) [
      | inl (bad, refused) ↦ absurd (ground (arith, e, refused))
      | inr (requested, planned) ↦
          let plan = extend_plan_with_current_pins requested refs services in
          let whole =
            launch-plan env (map (λ p. p.service) requested) plan update
              (ground (arith, e, planned)) in
          (
            (λ s tag there. subst (Has (Upgrades env refs s tag)) whole (
                extend-keeps (Upgrades env refs s tag) requested refs services
                  (make_plan-Upgrades env refs services s tag requested planned there))),
            (λ s ref other running own tagged. subst (Has (PinsTo s ref ref.tag)) whole (
                extend-pins s ref requested refs services running
                  (ground (arith, other, own, tagged)))),
          )
    ]
