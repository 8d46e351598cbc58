-- ===== src/Security/Paths/Tests.antt =====
-- Some paths.
use kube_op.Prelude.{◌≡◌, refl, some, ok, err}
use kube_op.Text.{text, split}
use kube_op.Security.Paths.{
  backslash, traversal, drive_letter, normalize_repo_path, reject_windows_drive,
  decode_path_segment,
}
use kube_op.Security.Paths.Normal.{AllNames, normalize_repo_path-AllNames}

normalized : normalize_repo_path (text " charts//./web/../api/ ") ≡ ok (text "charts/api")
unfolding normalize_repo_path
normalized = refl

escaping : normalize_repo_path (text "charts/../../etc") ≡ err traversal
unfolding normalize_repo_path
escaping = refl

escaped : normalize_repo_path (text "a\\b") ≡ err backslash
unfolding normalize_repo_path
escaped = refl

windows_path : reject_windows_drive (text "c:temp") ≡ some drive_letter
unfolding reject_windows_drive
windows_path = refl

segment : decode_path_segment (λ s. some s) (text "v1..2") ≡ err traversal
unfolding decode_path_segment
segment = refl

normalize_repo_path-AllNames_example : AllNames (split b'/' (text "charts/api"))
normalize_repo_path-AllNames_example =
    normalize_repo_path-AllNames (text " charts//./web/../api/ ") (text "charts/api") normalized
      refl
