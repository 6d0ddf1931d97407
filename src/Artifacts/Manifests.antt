-- ===== src/Artifacts/Manifests.antt =====
-- artifact_history.go: the downloads that are captured of a session, the manifest that is written when
-- it has stopped, and the janitor that removes what has been kept for long enough.
pub mod Captured
pub mod Janitor
use selenwright.Prelude.{
  clean, drop, has_prefix, length, any, eqb, is_some, ℕ, Bool, true, false, List, [], ◌∷◌, ◌++◌,
  Option, none, some, Str, StrMap, lit, ◌==◌, lookup, insert, delete, is_empty, has_suffix, keep,
  not, to_lower, join_path, ◌&&◌, ◌||◌, if◌then◌else◌, ℤ, pos, ltb_ℤ, ◌*◌, ◌^◌, sub_ℕ, ◌+◌,
  pos_part, neg_part,
}
use selenwright.Session.{Session}
use selenwright.Session.Caps.{browser_name}
use selenwright.Session.Sanitize.{base}
use selenwright.Artifacts.Settings.{Place, availability}

-- `artifactHistoryFileRef`
pub record FileRef : Type 0 where
  pub filename : Str
  pub path : Str

pub record Download : Type 0 where
  pub filename : Str
  pub path : Str
  pub relative_path : Str
  pub size_bytes : ℕ
  pub mime_type : Str

-- What copyFn returns: the downloads, the status, and whether there was an error.
pub record Capture : Type 0 where
  pub downloads : List Download
  pub status : Str
  pub failed : Bool

pub record Manifest : Type 0 where
  pub session_id : Str
  pub started_at : ℕ
  pub finished_at : ℤ
  pub browser : Str
  pub browser_version : Str
  pub protocol : Str
  pub quota : Str
  pub log : Option FileRef
  pub video : Option FileRef
  pub downloads : List Download
  pub downloads_status : Str

-- `files` are the regular files there are, by their paths, each with the manifest that its contents
-- parse as, or none.
pub record History : Type 0 where
  pub pending : StrMap Capture
  pub files : StrMap (Option Manifest)

-- CaptureDownloadsForSession; `copied` is what copyFn returns for the session.
unfoldable pub capture_downloads : Place → Capture → Session → Str → History → History
capture_downloads p copied sess id h =
    if sess.artifact_history_enabled
    then (elim (availability p) [
      | some reason ↦ h
      | none ↦ record h { pending = insert id copied h.pending }
    ])
    else h

unfoldable pub take_pending_capture : Str → History → History × Option Capture
take_pending_capture id h = elim (lookup id h.pending) [
  | none ↦ (h, none)
  | some c ↦ (record h { pending = delete id h.pending }, some c)
]

-- The file that a manifest refers to, where there is a directory and a name.
abbrev pub file_ref : Str → Str → Option FileRef
file_ref dir name =
    if is_empty dir || is_empty name
    then none
    else some (record { filename = base name; path = join_path dir name })

abbrev pub capture_status : Capture → Str
capture_status c =
    if c.failed then lit "error" else if is_empty c.status then lit "unsupported" else c.status

unfoldable pub new_manifest : Place → ℤ → Str → Session → Capture → Manifest
new_manifest p now id sess c = record {
  session_id = id;
  started_at = sess.started;
  finished_at = now;
  browser = to_lower (browser_name sess.caps);
  browser_version = sess.caps.version;
  protocol = if is_empty sess.protocol then lit "webdriver" else sess.protocol;
  quota = sess.quota;
  log = file_ref p.log_dir sess.caps.log_name;
  video = if sess.caps.video then file_ref p.video_dir sess.caps.video_name else none;
  downloads = c.downloads;
  downloads_status = capture_status c;
}

abbrev pub manifests_dir : Place → Str
manifests_dir p = join_path p.root_dir (lit "sessions")

abbrev pub downloads_dir : Place → Str
downloads_dir p = join_path p.root_dir (lit "downloads")

unfoldable pub manifest_path : Place → Str → Str
manifest_path p id = join_path (manifests_dir p) (id ++ lit ".json")

-- OnSessionStopped; `copied` is what copyFn would return now, `writes` whether the manifest is written.
unfoldable pub on_session_stopped : Place → Capture → Bool → ℤ → Str → Session → History → History
unfolding take_pending_capture new_manifest manifest_path
on_session_stopped p copied writes now id sess h =
    if sess.artifact_history_enabled
    then (elim (availability p) [
      | some reason ↦ h
      | none ↦
          let (h', taken) = take_pending_capture id h in
          let c : Capture = elim taken [ none ↦ copied | some c ↦ c ] in
          if writes
          then record h' {
            files = insert (manifest_path p id) (some (new_manifest p now id sess c)) h'.files;
          }
          else h'
    ])
    else h

-- What stands behind the directory and a slash in the path of a file.
abbrev pub below_dir : Str → Str → Option Str
below_dir dir path =
    let start = dir ++ b'/' ∷ [] in
    if has_prefix path start then some (drop (length start) path) else none

-- Whether ReadDir of the directory lists the file with an extension of .json.
abbrev is_json_in : Str → Str → Bool
is_json_in dir path = elim (below_dir dir path) [
  | none ↦ false
  | some name ↦ not (any (λ c. eqb c b'/') name) && has_suffix name (lit ".json")
]

-- loadAllManifests: the files below `sessions/` that end in .json and parse.
unfoldable pub load_all_manifests : Place → StrMap (Option Manifest) → List Manifest
load_all_manifests p [] = []
load_all_manifests p ((path, file) ∷ rest) =
    let others = load_all_manifests p rest in
    if is_json_in (manifests_dir p) path
    then (elim file [ none ↦ others | some mf ↦ mf ∷ others ])
    else others

abbrev minus : ℤ → ℤ → ℤ
minus a b = sub_ℕ (pos_part a + neg_part b) (pos_part b + neg_part a)

abbrev pub ref_path : Option FileRef → Str
ref_path none = []
ref_path (some r) = r.path

-- The files that the test finds and that the system lets go are removed.
unfoldable pub remove_where :
    (Str → Bool) → (Str → Bool) → StrMap (Option Manifest) → StrMap (Option Manifest)
remove_where removes found [] = []
remove_where removes found ((path, file) ∷ rest) =
    let others = remove_where removes found rest in
    if found path && removes path then others else (path, file) ∷ others

-- `os.Remove` of a file that may be missing; of no path at all, it is not called.
abbrev pub is_file : Str → Str → Bool
is_file path other = not (is_empty path) && clean path == other

-- `os.RemoveAll` removes what is at a path or below it.
abbrev pub is_at_or_below : Str → Str → Bool
is_at_or_below path other = path == other || is_some (below_dir path other)

-- removeManifestArtifacts: each part is tried, whether or not those before it fail.
unfoldable pub remove_manifest_artifacts : Place → (Str → Bool) → Manifest → History → History
unfolding remove_where manifest_path
remove_manifest_artifacts p removes mf h = record h {
  files =
      remove_where removes (λ other. manifest_path p mf.session_id == other)
        (remove_where removes (is_at_or_below (join_path (downloads_dir p) mf.session_id)) (
          remove_where removes (is_file (ref_path mf.video))
            (remove_where removes (is_file (ref_path mf.log)) h.files)));
}

-- A day in nanoseconds.
abbrev pub day : ℕ
day = 86400 * 10 ^ 9

abbrev is_zero : ℤ → Bool
is_zero n = not (ltb_ℤ n (pos 0)) && not (ltb_ℤ (pos 0) n)

-- Whether the janitor removes what a manifest lists; a time of zero is no time.
unfoldable pub is_due : ℤ → ℕ → Manifest → Bool
is_due now retention_days mf =
    not (is_zero mf.finished_at)
    && not (ltb_ℤ (minus now mf.finished_at) (pos (retention_days * day)))

unfoldable pub remove_due : Place → (Str → Bool) → ℤ → ℕ → List Manifest → History → History
unfolding remove_manifest_artifacts is_due
remove_due p removes now days [] h = h
remove_due p removes now days (mf ∷ mfs) h =
    remove_due p removes now days mfs
      (if is_due now days mf then remove_manifest_artifacts p removes mf h else h)

-- RunCleanupOnce; `reads` is whether the directory of manifests can be read.
unfoldable pub run_cleanup_once : Place → (Str → Bool) → Bool → ℤ → ℕ → History → History
unfolding load_all_manifests remove_due
run_cleanup_once p removes reads now days h = elim (availability p) [
  | some reason ↦ h
  | none ↦ if reads then remove_due p removes now days (load_all_manifests p h.files) h else h
]
