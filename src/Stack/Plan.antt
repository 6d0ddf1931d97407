-- ===== src/Stack/Plan.antt =====
-- stack_update.go: the plan of an update, and the script that carries it out.
pub mod Pins
use selenwright.Prelude.{
  ℕ, zero, suc, ◌-◌, Bool, true, false, List, [], ◌∷◌, ◌++◌, Option, none, some, Str, StrMap, lit,
  ◌==◌, lookup, insert, has_prefix, drop, take, length, ltb, eqb, join, trim_space, equal_fold,
  elem, is_some, is_empty, all, keep, map, reverse, not, ◌||◌, if◌then◌else◌, Result, ok, err,
}
use selenwright.Stack.Images.{ImageRef, parse_image_ref}
use selenwright.Stack.Candidates.{
  Semver, normalize_tag, pick_candidate_versions, find_candidate_by_canonical,
}
use selenwright.Stack.Quoting.{shell_single_quote}

abbrev pub selenwright_ns : Str
selenwright_ns = lit "selenwright"

pub record PlanEntry : Type 0 where
  pub service : Str
  pub image : Str
  pub tag : Str
  pub original : Str

pub data UpdateError : Type 0 where
  forbidden unavailable bad_request no_metadata container_list : UpdateError
  unknown_service unsupported_namespace invalid_tag hub_unavailable : Str → UpdateError
  pull_failed : Str → UpdateError
  no_updater_image create_failed start_failed : UpdateError

-- `<ns>/<repo>:<tag>`
unfoldable pub image_at : ImageRef → Str → Str
image_at ref tag = ref.namespace ++ b'/' ∷ ref.repo ++ b':' ∷ tag

-- `resp.Labels`, `resp.Names` and `resp.Image` of a running container.
pub record Container : Type 0 where
  pub service_label : Str
  pub names : List Str
  pub image : Str

abbrev pub first_or_empty : List Str → Str
first_or_empty [] = []
first_or_empty (s ∷ ss) = s

abbrev trim_prefix : Str → Str → Str
trim_prefix p s = if has_prefix s p then drop (length p) s else s

unfoldable pub service_of : Container → Str
service_of c =
    if is_empty c.service_label
    then trim_prefix (lit "/") (first_or_empty c.names)
    else c.service_label

-- `resolve` is what resolveContainerImageRef finds for a container whose image is a digest.
unfoldable pub image_ref_of : (Container → Str) → Container → Str
image_ref_of resolve c =
    if has_prefix c.image (lit "sha256:")
    then (if is_empty (resolve c) then c.image else resolve c)
    else c.image

-- The parsed image of each running service.
unfoldable pub service_refs : (Container → Str) → List Container → StrMap ImageRef → StrMap ImageRef
unfolding service_of image_ref_of
service_refs resolve [] refs = refs
service_refs resolve (c ∷ cs) refs = elim (parse_image_ref (image_ref_of resolve c)) [
  | none ↦ service_refs resolve cs refs
  | some ref ↦ service_refs resolve cs (insert (service_of c) ref refs)
]

-- `fetch` is fetchHubTags, the names of a repository's tags.
unfoldable pub plan_entry :
    Semver
    → (Str → Str → Option (List Str))
    → StrMap ImageRef
    → Str
    → Str
    → Result UpdateError PlanEntry
unfolding image_at
plan_entry v fetch refs service requested = elim (lookup service refs) [
  | none ↦ err (unknown_service service)
  | some ref ↦
      if not (equal_fold ref.namespace selenwright_ns)
      then err (unsupported_namespace service)
      else let canonical = normalize_tag v requested in
        if is_empty canonical
        then err (invalid_tag service)
        else (elim (fetch ref.namespace ref.repo) [
          | none ↦ err (hub_unavailable service)
          | some names ↦
              elim (find_candidate_by_canonical v (pick_candidate_versions v ref.tag names 50)
                canonical) [
                  | none ↦ err (invalid_tag service)
                  | some published ↦ ok (record {
                    service = service;
                    image = image_at ref published;
                    tag = published;
                    original = trim_space requested;
                  })
                ]
        ])
]

-- The loop over the services that are asked for, which ends at the first that is refused.
unfoldable pub make_plan :
    Semver
    → (Str → Str → Option (List Str))
    → StrMap ImageRef
    → StrMap Str
    → Result UpdateError (List PlanEntry)
unfolding plan_entry
make_plan v fetch refs [] = ok []
make_plan v fetch refs ((service, requested) ∷ rest) =
    let others = make_plan v fetch refs rest in
    elim (plan_entry v fetch refs service requested) [
      | err e ↦ err e
      | ok entry ↦ elim others [ err e ↦ err e | ok entries ↦ ok (entry ∷ entries) ]
    ]

-- Whether a running service is pinned although it is not asked for.
abbrev pub pins : StrMap Str → Str → ImageRef → Bool
pins requested service ref = not (
    is_some (lookup service requested)
    || not (equal_fold ref.namespace selenwright_ns)
    || is_empty ref.tag)

abbrev pub current_pin : Str → ImageRef → PlanEntry
current_pin service ref = record {
  service = service;
  image = image_at ref ref.tag;
  tag = ref.tag;
  original = ref.tag;
}

unfoldable pub extend_plan_with_current_pins :
    List PlanEntry → StrMap ImageRef → StrMap Str → List PlanEntry
extend_plan_with_current_pins plan [] requested = plan
extend_plan_with_current_pins plan ((service, ref) ∷ refs) requested =
    extend_plan_with_current_pins
      (if pins requested service ref then plan ++ current_pin service ref ∷ [] else plan) refs
      requested

abbrev newline : Str
newline = 10 ∷ []

abbrev yaml_entry : PlanEntry → Str
yaml_entry p =
    lit "  " ++ p.service ++ lit ":" ++ newline ++ lit "    image: " ++ p.image ++ newline

abbrev yaml_entries : List PlanEntry → Str
yaml_entries [] = []
yaml_entries (p ∷ ps) = yaml_entry p ++ yaml_entries ps

-- `sort` is sort.Slice by the service.
unfoldable pub render_override_yaml : (List PlanEntry → List PlanEntry) → List PlanEntry → Str
render_override_yaml sort plan =
    lit "# Generated by selenwright stack update "
    ++ 226 ∷ 128 ∷ 148 ∷ lit " do not edit by hand."
    ++ newline
    ++ lit "services:"
    ++ newline
    ++ yaml_entries (sort plan)

-- `strings.ReplaceAll`, with the number of bytes still to pass over of the last one found.
unfoldable pub replace_from : ℕ → Str → Str → Str → Str
replace_from skip old new [] = []
replace_from (suc skip) old new (c ∷ s) = replace_from skip old new s
replace_from zero old new (c ∷ s) =
    let here = replace_from zero old new s in
    let found = replace_from (length old - 1) old new s in
    if has_prefix (c ∷ s) old then new ++ found else c ∷ here

abbrev pub eof : Str
eof = lit "__SELENWRIGHT_OVERRIDE_EOF__"

abbrev drop_newlines : Str → Str
drop_newlines [] = []
drop_newlines (c ∷ s) = if eqb c 10 then drop_newlines s else c ∷ s

abbrev quoted_words : List Str → Str
quoted_words [] = []
quoted_words (s ∷ ss) = lit " " ++ shell_single_quote s ++ quoted_words ss

unfoldable pub compose_command : (List Str → List Str) → List Str → Str
compose_command sort changed =
    lit
      "docker compose -f \"$CONFIG_FILE\" -f \"$OVERRIDE_PATH\" --project-directory \"$WORKING_DIR\" up -d"
    ++ (if is_empty changed then [] else lit " --force-recreate" ++ quoted_words (sort changed))

-- `sort` is sort.Strings.
unfoldable pub build_updater_shell_snippet : (List Str → List Str) → Str → List Str → Str
unfolding replace_from compose_command
build_updater_shell_snippet sort override_yaml changed =
    let body = replace_from 0 eof (lit "__SELENWRIGHT_OVERRIDE_EOF_SAFE__") override_yaml in
    join 10 (
      lit "set -e"
      ∷ lit "OVERRIDE_PATH=\"$WORKING_DIR/docker-compose.override.yml\""
      ∷ (lit "cat > \"$OVERRIDE_PATH\" <<'" ++ eof ++ lit "'")
      ∷ reverse (drop_newlines (reverse body))
      ∷ eof
      ∷ compose_command sort changed
      ∷ [])

-- What the handler takes from Docker, the registry and the body of the request, with the sorting of
-- strings and of entries.
pub record Surroundings : Type 0 where
  pub admits : Bool
  pub available : Bool
  pub services : Option (StrMap Str)
  pub has_metadata : Bool
  pub containers : Option (List Container)
  pub resolve : Container → Str
  pub semver : Semver
  pub fetch : Str → Str → Option (List Str)
  pub pulls : Str → Bool
  pub updater_ready : Bool
  pub creates : Bool
  pub starts : Bool
  pub sort_entries : List PlanEntry → List PlanEntry
  pub sort_strings : List Str → List Str

-- The images of the services that are asked for are pulled; the first failure ends it.
unfoldable pub pull_changed : (Str → Bool) → List Str → List PlanEntry → Option UpdateError
pull_changed pulls changed [] = none
pull_changed pulls changed (p ∷ ps) =
    let rest = pull_changed pulls changed ps in
    if not (elem p.service changed)
    then rest
    else if pulls p.image
    then rest
    else some (pull_failed p.image)

-- What is pinned, and the script that the updater runs.
pub record Update : Type 0 where
  pub plan : List PlanEntry
  pub script : Str

unfoldable pub update_of : Surroundings → List Str → List PlanEntry → Update
unfolding render_override_yaml build_updater_shell_snippet
update_of env changed plan = record {
  plan = plan;
  script =
      build_updater_shell_snippet env.sort_strings (render_override_yaml env.sort_entries plan)
        changed;
}

-- From the plan on: the pulls and the updater's container.
unfoldable pub launch : Surroundings → List Str → List PlanEntry → Result UpdateError Update
unfolding pull_changed update_of
launch env changed plan = elim (pull_changed env.pulls changed plan) [
  | some e ↦ err e
  | none ↦
      if not env.updater_ready
      then err no_updater_image
      else if not env.creates
      then err create_failed
      else if not env.starts
      then err start_failed
      else ok (update_of env changed plan)
]

-- From the parsed images on.
unfoldable pub carry_out : Surroundings → StrMap Str → StrMap ImageRef → Result UpdateError Update
unfolding make_plan extend_plan_with_current_pins launch
carry_out env services refs = elim (make_plan env.semver env.fetch refs services) [
  | err e ↦ err e
  | ok requested ↦
      launch env (map (λ p. p.service) requested)
        (extend_plan_with_current_pins requested refs services)
]

-- stackUpdateHandler.
unfoldable pub stack_update : Surroundings → Result UpdateError Update
unfolding carry_out service_refs
stack_update env =
    if not env.admits
    then err forbidden
    else if not env.available
    then err unavailable
    else (elim env.services [
      | none ↦ err bad_request
      | some services ↦
          if is_empty services
          then err bad_request
          else if not env.has_metadata
          then err no_metadata
          else (elim env.containers [
            | none ↦ err container_list
            | some cs ↦ carry_out env services (service_refs env.resolve cs [])
          ])
    ])
