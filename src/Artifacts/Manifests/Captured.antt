-- ===== src/Artifacts/Manifests/Captured.antt =====
-- The downloads of a session from its end to its manifest.
use selenwright.Prelude.{
  ◌≡◌, true, none, some, Str, ℤ, lookup, insert, lookup-insert, lookup-delete, ==_refl, arith,
}
use selenwright.Session.{Session}
use selenwright.Artifacts.Settings.{Place, availability}
use selenwright.Artifacts.Manifests.{
  Capture, History, capture_downloads, on_session_stopped, take_pending_capture, new_manifest,
  manifest_path,
}

-- For a session that keeps a history, where the history is available and the manifest is written: the
-- downloads that were captured before its container went are those of its manifest, whatever a copy
-- would give afterwards, and the capture is not kept any longer.
on_session_stopped-capture :
    (p : Place) (before after : Capture) (now : ℤ) (id : Str) (sess : Session) (h : History)
    → sess.artifact_history_enabled ≡ true
    → availability p ≡ none
    → let h' = on_session_stopped p after true now id sess (capture_downloads p before sess id h) in
      (lookup (manifest_path p id) h'.files ≡ some (some (new_manifest p now id sess before)))
      × (lookup id h'.pending ≡ none)
unfolding on_session_stopped capture_downloads take_pending_capture
on_session_stopped-capture p before after now id sess h keeps on =
    let mf = new_manifest p now id sess before in
    ground (
      arith,
      keeps,
      on,
      lookup-insert id id before h.pending,
      ==_refl id,
      lookup-delete id id (insert id before h.pending),
      lookup-insert (manifest_path p id) (manifest_path p id) (some mf) h.files,
      ==_refl (manifest_path p id),
    )
