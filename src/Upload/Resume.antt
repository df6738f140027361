-- ===== src/Upload/Resume.antt =====
-- services/resume_validation.go: whether a partial download is fit to be resumed.
pub mod Sound
use loon_agent.Prelude.{
  ℕ, suc, ◌/◌, Bool, true, false, ◌&&◌, ◌||◌, not, Option, none, some, ltb, ◌==◌, if◌then◌else◌,
  Bytes, add64, lt_signed,
}
use loon_agent.FileTree.{
  FileInfo, Kind, regular, symlink, irregular, Node, file, dir, locked, lost, on_file, on_dir,
  on_locked, on_lost, Outcome, go, skip_dir, skip_all, fail, Visitor, walk,
}

pub data ResumeError : Type 0 where
  symlink_found unreadable : ResumeError

pub record Payload : Type 0 where
  pub file_count : ℕ
  pub total_bytes : ℕ

abbrev pub is_symlink : FileInfo → Bool
is_symlink i = elim i.kind [ symlink ↦ true | regular ↦ false | irregular ↦ false ]

-- `fi.Mode().IsRegular() && fi.Size() > 0`
abbrev pub is_payload : FileInfo → Bool
is_payload i =
    (elim i.kind [ regular ↦ true | symlink ↦ false | irregular ↦ false ]) && ltb 0 i.size

unfoldable pub count_payload : FileInfo → Payload → Payload
count_payload i s =
    if is_payload i
    then record { file_count = suc s.file_count; total_bytes = add64 s.total_bytes i.size }
    else s

unfoldable pub resume_visit : Visitor Payload ResumeError
resume_visit path (on_file i) s =
    if is_symlink i then (s, fail symlink_found) else (count_payload i s, go)
resume_visit path (on_dir n) s = (s, go)
resume_visit path (on_locked n) s = (s, fail unreadable)
resume_visit path (on_lost n) s = (s, fail unreadable)

-- The checks after the walk.
abbrev pub is_enough : ℕ → Payload → Bool
is_enough expected_bytes s =
    if s.file_count == 0
    then false
    else if lt_signed 0 expected_bytes
    then not (
        lt_signed s.total_bytes (expected_bytes / 2)
        || lt_signed (add64 expected_bytes (expected_bytes / 2)) s.total_bytes)
    else true

abbrev pub judge : ℕ → Payload × Outcome ResumeError → Bool
judge expected_bytes (s, fail e) = false
judge expected_bytes (s, go) = is_enough expected_bytes s
judge expected_bytes (s, skip_dir) = is_enough expected_bytes s
judge expected_bytes (s, skip_all) = is_enough expected_bytes s

abbrev pub no_payload : Payload
no_payload = record { file_count = 0; total_bytes = 0 }

-- ValidatePartialDownload; `none` is an empty path or one that os.Stat fails on.
unfoldable pub validate_partial_download : Option Node → ℕ → Bool
unfolding resume_visit walk
validate_partial_download none expected_bytes = false
validate_partial_download (some (file i)) expected_bytes = false
validate_partial_download (some (lost n)) expected_bytes = false
validate_partial_download (some (dir n entries)) expected_bytes =
    judge expected_bytes (walk resume_visit (dir n entries) no_payload)
validate_partial_download (some (locked n)) expected_bytes =
    judge expected_bytes (walk resume_visit (locked n) no_payload)
