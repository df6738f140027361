-- ===== src/Upload/Manifest.antt =====
-- services/upload_manifest.go: the audit of the video files between download and upload.
mod Order
pub mod Census
pub mod Diff
use loon_agent.Prelude.{
  ℕ, ◌+◌, ◌*◌, ◌^◌, Bool, true, false, Option, none, some, List, [], ◌∷◌, ◌++◌, map, ltb, ◌==◌,
  if◌then◌else◌, not, ◌||◌, Bytes, codes, contains, equal, to_lower, add64,
}
use loon_agent.FilePath.{ext, base}
use loon_agent.FileTree.{
  FileInfo, Node, on_file, on_dir, on_locked, on_lost, Outcome, go, Visitor, walk,
}
use loon_agent.Dict.{Dict, empty, get, put}

abbrev pub video_exts : List Bytes
video_exts = map codes (".mkv" ∷ ".mp4" ∷ ".avi" ∷ ".m2ts" ∷ ".ts" ∷ ".mov" ∷ ".wmv" ∷ ".webm" ∷ [])

abbrev pub min_video_bytes : ℕ
min_video_bytes = 2 ^ 20

pub record ManifestEntry : Type 0 where
  pub rel_path : Bytes
  pub size : ℕ

pub record UploadManifest : Type 0 where
  pub video_count : ℕ
  pub video_bytes : ℕ  -- int64
  pub total_count : ℕ
  pub total_bytes : ℕ  -- int64
  pub video_files : List ManifestEntry

-- filepath.Rel of the walked path: the root itself is ".".
abbrev pub rel_of : Bytes → Bytes
rel_of [] = codes "."
rel_of (c ∷ s) = c ∷ s

unfoldable pub is_video : FileInfo → Bool
unfolding ext
is_video i = contains video_exts (to_lower (ext i.name))

abbrev with_total : UploadManifest → ℕ → UploadManifest
with_total m size = record m {
  total_count = m.total_count + 1;
  total_bytes = add64 m.total_bytes size;
}

abbrev with_video : UploadManifest → ManifestEntry → UploadManifest
with_video m e = record m {
  video_count = m.video_count + 1;
  video_bytes = add64 m.video_bytes e.size;
  video_files = m.video_files ++ e ∷ [];
}

unfoldable pub manifest_visit : {E : Type 0} → Visitor UploadManifest E
unfolding is_video
manifest_visit path (on_file i) m = (
  if ltb i.size min_video_bytes
      then with_total m i.size
      else if is_video i
      then with_video (with_total m i.size) (record { rel_path = rel_of path; size = i.size })
      else with_total m i.size,
  go,
)
manifest_visit path (on_dir n) m = (m, go)
manifest_visit path (on_locked n) m = (m, go)
manifest_visit path (on_lost n) m = (m, go)

abbrev pub empty_manifest : UploadManifest
empty_manifest = record {
  video_count = 0;
  video_bytes = 0;
  total_count = 0;
  total_bytes = 0;
  video_files = [];
}

-- `<` on Go strings
abbrev pub less : Bytes → Bytes → Bool
less [] [] = false
less [] (y ∷ ys) = true
less (x ∷ xs) [] = false
less (x ∷ xs) (y ∷ ys) = if ltb x y then true else if x == y then less xs ys else false

-- sort.Slice by RelPath
unfoldable pub insert : ManifestEntry → List ManifestEntry → List ManifestEntry
insert e [] = e ∷ []
insert e (f ∷ fs) =
    let rest = insert e fs in if less f.rel_path e.rel_path then f ∷ rest else e ∷ f ∷ fs

unfoldable pub sort : List ManifestEntry → List ManifestEntry
unfolding insert
sort [] = []
sort (e ∷ es) = insert e (sort es)

unfoldable pub manifest_of : Node → UploadManifest
unfolding manifest_visit walk sort
manifest_of root =
    let m = (walk {E = Unit {0}} manifest_visit root empty_manifest).0 in
    record m { video_files = sort m.video_files }

pub record ManifestDiff : Type 0 where
  pub missing : List ManifestEntry
  pub extra : List ManifestEntry

-- `uploadByBase` and `sourceByBase`: of two files with one base name the later one stays.
unfoldable pub by_base : Dict ManifestEntry → List ManifestEntry → Dict ManifestEntry
unfolding base put
by_base m [] = m
by_base m (f ∷ fs) = by_base (put m (base f.rel_path) f) fs

abbrev pub is_missing : Dict ManifestEntry → ManifestEntry → Bool
is_missing m src = elim (get m (base src.rel_path)) [
  | none ↦ true
  | some up ↦ not (up.size == src.size)
]

abbrev pub is_extra : Dict ManifestEntry → ManifestEntry → Bool
is_extra m up = elim (get m (base up.rel_path)) [ none ↦ true | some _ ↦ false ]

-- A loop that appends the entries that pass a test.
unfoldable pub collect :
    (ManifestEntry → Bool) → List ManifestEntry → List ManifestEntry → List ManifestEntry
collect test out [] = out
collect test out (e ∷ es) = collect test (if test e then out ++ e ∷ [] else out) es

unfoldable pub diff_manifests : UploadManifest → UploadManifest → ManifestDiff
unfolding by_base collect get
diff_manifests source upload =
    let upload_by_base = by_base empty upload.video_files in
    let source_by_base = by_base empty source.video_files in
    record {
      missing = collect (is_missing upload_by_base) [] source.video_files;
      extra = collect (is_extra source_by_base) [] upload.video_files;
    }

pub record ManifestError : Type 0 where
  pub source : UploadManifest
  pub upload : UploadManifest
  pub diff : ManifestDiff

-- The file that `Error` names.
unfoldable pub first_missing : ManifestError → Bytes
first_missing e = elim e.diff.missing [ [] ↦ codes "(unknown)" | f ∷ _ ↦ f.rel_path ]

-- CompareManifest: `none` is nil.
unfoldable pub compare_manifest : UploadManifest → UploadManifest → Bool → Option ManifestError
unfolding diff_manifests
compare_manifest source upload encrypted =
    if encrypted
    then none
    else if source.video_count == 0
    then none
    else if ltb upload.video_count source.video_count
    then some (record { source = source; upload = upload; diff = diff_manifests source upload })
    else none
