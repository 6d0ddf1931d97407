-- ===== src/Artifacts/Manifests/Janitor.antt =====
-- What the janitor removes, and what it keeps.
use selenwright.Prelude.{
  clean, ℕ, ◌≡◌, Bool, false, List, [], ◌∷◌, ◌++◌, Option, none, some, Str, ℤ, lookup, any, not,
  is_empty, join_path, lit, ◌==◌, ◌&&◌, ◌||◌, if◌then◌else◌, has_prefix,
}
use selenwright.Artifacts.Settings.{Place}
use selenwright.Artifacts.Manifests.{FileRef, History, Manifest, is_due}

-- The file is the one that is referred to.
abbrev pub refers_to : Option FileRef → Str → Bool
refers_to none path = false
refers_to (some r) path = not (is_empty r.path) && clean r.path == path

-- The file belongs to the manifest: its log, its video, what is at or below the directory of
-- downloads that is named by its session id, and the file in `sessions` that is named by that id.
-- Both names are cleaned: an id of two dots stands for the root of all artifacts.
abbrev pub belongs_to : Place → Manifest → Str → Bool
belongs_to p mf path =
    let downloads = join_path (join_path p.root_dir (lit "downloads")) mf.session_id in
    let manifest =
      join_path (join_path p.root_dir (lit "sessions")) (mf.session_id ++ lit ".json") in
    refers_to mf.log path
    || refers_to mf.video path
    || (downloads == path || has_prefix path (downloads ++ b'/' ∷ []))
    || manifest == path

-- The file belongs to a manifest that is due.
abbrev pub is_swept : Place → ℤ → ℕ → List Manifest → Str → Bool
is_swept p now days mfs path = any (λ mf. is_due now days mf && belongs_to p mf path) mfs

-- What belongs to a manifest that is due is gone, and every other file is as it was.
abbrev pub IsSwept : Place → ℤ → ℕ → List Manifest → History → History → Type 0
IsSwept p now days mfs h h' =
    (path : Str)
    → lookup path h'.files ≡ (if is_swept p now days mfs path then none else lookup path h.files)
