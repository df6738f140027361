-- ===== src/Upload/Manifest/Diff.antt =====
-- services/upload_manifest.go: the files that DiffManifests names.
use loon_agent.Prelude.{
  ◌≡◌, refl, sym, ◌∙◌, Bool, true, false, Option, none, some, List, [], ◌∷◌, ◌++◌, arith, ◌==◌,
  if◌then◌else◌, not, Bytes, codes, equal, filter, all, Bool-cases, inl, inr,
}
use mathlib.Core.List.{append_assoc, append-nil}
use loon_agent.FilePath.{base}
use loon_agent.Dict.{Dict, get, put, get-put}
use loon_agent.Upload.Manifest.{
  ManifestEntry, UploadManifest, ManifestError, by_base, collect, diff_manifests, first_missing,
  compare_manifest,
}

-- The last entry of a list with the base name `k`.
abbrev pub last_named : Bytes → List ManifestEntry → Option ManifestEntry
last_named k [] = none
last_named k (f ∷ fs) = elim (last_named k fs) [
  | some g ↦ some g
  | none ↦ if equal (base f.rel_path) k then some f else none
]

-- A source file is kept if the last upload file of its base name has its size.
abbrev pub is_kept : List ManifestEntry → ManifestEntry → Bool
is_kept upload src = elim (last_named (base src.rel_path) upload) [
  | none ↦ false
  | some up ↦ up.size == src.size
]

abbrev pub is_new : List ManifestEntry → ManifestEntry → Bool
is_new source up = elim (last_named (base up.rel_path) source) [ none ↦ true | some _ ↦ false ]

abbrev or_else : Option ManifestEntry → Option ManifestEntry → Option ManifestEntry
or_else (some g) o = some g
or_else none o = o

get-by_base :
    (m : Dict ManifestEntry) (fs : List ManifestEntry) (k : Bytes)
    → get (by_base m fs) k ≡ or_else (last_named k fs) (get m k)
unfolding by_base
get-by_base m [] k = refl
get-by_base m (f ∷ fs) k =
    ground (arith, get-by_base (put m (base f.rel_path) f) fs k, get-put m (base f.rel_path) f k)

collect-filter :
    (test keep : ManifestEntry → Bool) (out es : List ManifestEntry)
    → ((e : ManifestEntry) → test e ≡ keep e)
    → collect test out es ≡ out ++ filter keep es
unfolding collect
collect-filter test keep out [] same = sym (append-nil out)
collect-filter test keep out (e ∷ es) same = elim (Bool-cases (keep e)) [
  | inl k ↦
      rw (same e, k)
        (collect-filter test keep (out ++ e ∷ []) es same
          ∙ append_assoc out (e ∷ []) (filter keep es))
  | inr k ↦ rw (same e, k) (collect-filter test keep out es same)
]

-- Missing holds, in order, the source files that the upload does not keep, and Extra the upload
-- files whose base name the source does not have.
pub diff_manifests_lem :
    (source upload : UploadManifest)
    → ((diff_manifests source upload).missing
        ≡ filter (λ e. not (is_kept upload.video_files e)) source.video_files)
      × ((diff_manifests source upload).extra
          ≡ filter (is_new source.video_files) upload.video_files)
unfolding diff_manifests
diff_manifests_lem source upload = (
  collect-filter _ _ [] source.video_files
      (λ e. ground (arith, get-by_base [] upload.video_files (base e.rel_path))),
  collect-filter _ _ [] upload.video_files
      (λ e. ground (arith, get-by_base [] source.video_files (base e.rel_path))),
)

filter-none :
    (keep : ManifestEntry → Bool) (es : List ManifestEntry)
    → all keep es ≡ true
    → filter (λ e. not (keep e)) es ≡ []
filter-none keep [] h = refl
filter-none keep (e ∷ es) h = ground (arith, filter-none keep es)

-- Where the upload lacks videos by number, but for each video of the source the last video of the
-- upload that has its base name has its size too, the refusal names no file: Missing is empty, and
-- the message says "(unknown)".
pub unnamed_loss :
    (source upload : UploadManifest) {e : ManifestError}
    → all (is_kept upload.video_files) source.video_files ≡ true
    → compare_manifest source upload false ≡ some e
    → (e.diff.missing ≡ []) × (first_missing e ≡ codes "(unknown)")
unfolding compare_manifest first_missing
unnamed_loss source upload h c =
    let none_missing =
      (diff_manifests_lem source upload).0
      ∙ filter-none (is_kept upload.video_files) source.video_files h in
    ground (arith, none_missing)
