-- ===== src/Upload/Manifest/Census.antt =====
-- services/upload_manifest.go: what ManifestOf counts, and when CompareManifest refuses.
use loon_agent.Prelude.{
  ℕ, ◌+◌, ◌%◌, ◌≤◌, ◌≡◌, ◌↔◌, ◌⊎◌, refl, ◌∙◌, Bool, true, none, List, [], ◌∷◌, ◌++◌, map, arith,
  ltb, if◌then◌else◌, not, ◌&&◌, length, sum_by, filter, word,
}
use mathlib.Core.List.{Perm, append_assoc, append-nil}
use loon_agent.FileTree.{Node}
use loon_agent.FileTree.Files.{Found, files_in, fold_files, walk-fold_files}
use loon_agent.Upload.Manifest.{
  ManifestEntry, UploadManifest, min_video_bytes, rel_of, is_video, manifest_visit, empty_manifest,
  with_total, with_video, sort, manifest_of, compare_manifest,
}
use loon_agent.Upload.Manifest.Order.{IsSorted, sort-IsSorted, sort-perm}

abbrev pub is_feature : Found → Bool
is_feature f = not (ltb f.info.size min_video_bytes) && is_video f.info

-- The feature videos of a tree.
abbrev pub features : Node → List ManifestEntry
features root =
    map (λ f. record { rel_path = rel_of f.path; size = f.info.size })
      (filter is_feature (files_in [] root))

record_one : UploadManifest → Found → UploadManifest
record_one m f =
    if ltb f.info.size min_video_bytes
    then with_total m f.info.size
    else if is_video f.info
    then with_video (with_total m f.info.size)
        (record { rel_path = rel_of f.path; size = f.info.size })
    else with_total m f.info.size

record_all : UploadManifest → List Found → UploadManifest
record_all m [] = m
record_all m (f ∷ fs) = record_all (record_one m f) fs

record_all-fold :
    (m : UploadManifest) (fs : List Found)
    → fold_files (λ path i n. record_one n (record { path = path; info = i })) m fs
      ≡ record_all m fs
unfolding record_all fold_files
record_all-fold m [] = refl
record_all-fold m (f ∷ fs) = record_all-fold (record_one m f) fs

abbrev entry_of : Found → ManifestEntry
entry_of f = record { rel_path = rel_of f.path; size = f.info.size }

abbrev entries : List Found → List ManifestEntry
entries fs = map entry_of (filter is_feature fs)

abbrev total_of : List Found → ℕ
total_of = sum_by (λ f. f.info.size)

abbrev bytes_of : List ManifestEntry → ℕ
bytes_of = sum_by (λ e. e.size)

abbrev extended : UploadManifest → List Found → UploadManifest
extended m fs = record {
  video_count = m.video_count + length (entries fs);
  video_bytes = (m.video_bytes + bytes_of (entries fs)) % word;
  total_count = m.total_count + length fs;
  total_bytes = (m.total_bytes + total_of fs) % word;
  video_files = m.video_files ++ entries fs;
}

record_one-extended :
    (m : UploadManifest) (f : Found) (fs : List Found)
    → extended (record_one m f) fs ≡ extended m (f ∷ fs)
unfolding record_one
record_one-extended m f fs =
    ground (arith, append_assoc m.video_files (entry_of f ∷ []) (entries fs))

record_all_fields :
    (m : UploadManifest) (fs : List Found)
    → m.video_bytes % word ≡ m.video_bytes
    → m.total_bytes % word ≡ m.total_bytes
    → record_all m fs ≡ extended m fs
unfolding record_all
record_all_fields m [] v t = ground (arith, append-nil m.video_files)
record_all_fields m (f ∷ fs) v t =
    record_all_fields (record_one m f) fs (unfold record_one in ground arith)
      (unfold record_one in ground arith)
    ∙ record_one-extended m f fs

manifest-extended :
    (root : Node)
    → manifest_of root ≡ (
        let m = extended empty_manifest (files_in [] root) in
        record m { video_files = sort m.video_files })
unfolding manifest_of
manifest-extended root =
    rw
      (
        walk-fold_files {E = Unit {0}} manifest_visit
            (λ path i n. record_one n (record { path = path; info = i }))
            (λ p i m. unfold manifest_visit record_one in refl)
            (λ p n m. unfold manifest_visit in refl) (λ p n m. unfold manifest_visit in refl)
            (λ p n m. unfold manifest_visit in refl) root empty_manifest,
        record_all-fold,
      )
      (rw (record_all_fields empty_manifest (files_in [] root) (omega arith) (omega arith)) refl)

-- What ManifestOf promises of a tree.
pub record IsCensus (root : Node) (m : UploadManifest) : Type 0 where
  pub total_count : m.total_count ≡ length (files_in [] root)
  pub total_bytes : m.total_bytes ≡ total_of (files_in [] root) % word
  pub video_count : m.video_count ≡ length (features root)
  pub video_bytes : m.video_bytes ≡ bytes_of (features root) % word
  pub sorted : IsSorted m.video_files
  pub same_files : Perm m.video_files (features root)

-- ManifestOf counts every file that the walk reaches and adds up the sizes as an int64; its videos
-- are the files of at least 1 MiB with a video extension, counted, added up, and listed by path.
pub manifest_of-IsCensus : (root : Node) → IsCensus root (manifest_of root)
manifest_of-IsCensus root = rw manifest-extended (record {
  total_count = omega arith;
  total_bytes = omega arith;
  video_count = omega arith;
  video_bytes = omega arith;
  sorted = sort-IsSorted (features root);
  same_files = sort-perm (features root);
})

-- CompareManifest lets a publish through exactly when the upload is encrypted or its tree has at
-- least as many feature videos as the tree of the download; the counts and sizes of all other files
-- have no part in it.
pub compare_manifest_iff :
    (source upload : Node) (encrypted : Bool)
    → (compare_manifest (manifest_of source) (manifest_of upload) encrypted ≡ none)
      ↔ ((encrypted ≡ true) ⊎ (length (features source) ≤ length (features upload)))
unfolding compare_manifest
compare_manifest_iff source upload encrypted =
    let s = (manifest_of-IsCensus source).video_count in
    let u = (manifest_of-IsCensus upload).video_count in
    (λ h. ground (arith, s, u), λ h. ground (arith, s, u))
