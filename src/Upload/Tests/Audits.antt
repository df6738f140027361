-- ===== src/Upload/Tests/Audits.antt =====
-- Runs of the video audit, the blocklist and the resume check.
use loon_agent.Prelude.{
  ◌^◌, ◌≤◌, ◌<◌, ◌≡◌, ◌↔◌, ◌⊎◌, refl, true, false, not, none, some, List, [], ◌∷◌, map, all, any,
  arith, Bytes, codes, contains, filter, length,
}
use loon_agent.Dict.{get, put}
use loon_agent.FilePath.{ext, base}
use loon_agent.FileTree.{walk, walk_node, walk_nodes, child_path}
use loon_agent.FileTree.Files.{files_in}
use loon_agent.FileTree.Readable.{is_readable}
use loon_agent.Upload.Manifest.{
  ManifestEntry, UploadManifest, ManifestError, manifest_of, by_base, collect, diff_manifests,
  compare_manifest, first_missing,
}
use loon_agent.Upload.Manifest.Census.{
  IsCensus, features, manifest_of-IsCensus, compare_manifest_iff,
}
use loon_agent.Upload.Manifest.Diff.{is_kept, is_new, diff_manifests_lem, unnamed_loss}
use loon_agent.Upload.Blocklist.{
  ExpectedFile, count_in, default_blocked_extensions, remove_one, remove_visit,
  remove_blocked_files, expected_after_blocklist, dir_has_usable_files,
}
use loon_agent.Upload.Blocklist.Survivors.{
  blocked_files, count_of, is_on_disk, remove_blocked_files_lem, expected_after_blocklist_lem,
}
use loon_agent.Upload.Blocklist.Usable.{is_usable, dir_has_usable_files_lem}
use loon_agent.Upload.Resume.{validate_partial_download, resume_visit, count_payload}
use loon_agent.Upload.Resume.Sound.{
  is_sound, payload_of, payload_bytes, IsPlausible, validate_partial_download_iff,
}
use loon_agent.Upload.Tests.Trees.{entries, release, stage}

manifest_of-IsCensus_test : IsCensus release (manifest_of release)
manifest_of-IsCensus_test = manifest_of-IsCensus release

compare_manifest_iff_example :
    (compare_manifest (manifest_of release) (manifest_of stage) false ≡ none)
    ↔ ((false ≡ true) ⊎ (length (features release) ≤ length (features stage)))
compare_manifest_iff_example = compare_manifest_iff release stage false

abbrev episode : Bytes → ManifestEntry
episode path = record { rel_path = path; size = 5000000 }

-- Two episodes of the same base name, of which the upload has one.
abbrev source : UploadManifest
source = record {
  video_count = 2;
  video_bytes = 10000000;
  total_count = 2;
  total_bytes = 10000000;
  video_files = episode (codes "1/e.mkv") ∷ episode (codes "2/e.mkv") ∷ [];
}

abbrev upload : UploadManifest
upload = record {
  video_count = 1;
  video_bytes = 5000000;
  total_count = 1;
  total_bytes = 5000000;
  video_files = episode (codes "1/e.mkv") ∷ [];
}

abbrev refusal : ManifestError
refusal = record { source = source; upload = upload; diff = record { missing = []; extra = [] } }

diff_manifests_lem_test :
    ((diff_manifests source upload).missing
      ≡ filter (λ e. not (is_kept upload.video_files e)) source.video_files)
    × ((diff_manifests source upload).extra ≡ filter (is_new source.video_files) upload.video_files)
diff_manifests_lem_test = diff_manifests_lem source upload

kept_all : all (is_kept upload.video_files) source.video_files ≡ true
unfolding base
kept_all = refl

refused : compare_manifest source upload false ≡ some refusal
unfolding compare_manifest diff_manifests by_base collect base get put
refused = refl

unnamed_loss_example : (refusal.diff.missing ≡ []) × (first_missing refusal ≡ codes "(unknown)")
unnamed_loss_example = unnamed_loss source upload {e = refusal} kept_all refused

release-readable : is_readable release ≡ true
unfolding is_readable
release-readable = refl

remove_blocked_files_lem_test :
    ((remove_blocked_files none release).gone ≡ map (λ f. f.path) (blocked_files none release))
    × (((remove_blocked_files none release).removed ≡ length (blocked_files none release))
        × ((e : Bytes)
            → count_in (remove_blocked_files none release).by_ext e
              ≡ count_of e (blocked_files none release)))
remove_blocked_files_lem_test = remove_blocked_files_lem none release release-readable

remove_test : (remove_blocked_files none release).gone ≡ codes "b.exe" ∷ []
unfolding remove_blocked_files remove_visit remove_one default_blocked_extensions walk walk_node
    walk_nodes child_path ext get put
remove_test = refl

abbrev declared : List ExpectedFile
declared =
    record { path = codes "a.mkv"; size = 2097152 } ∷ record { path = codes "b.exe"; size = 7 } ∷ []

declared-on_disk : all (λ e. is_on_disk (files_in [] release) e.path) declared ≡ true
unfolding files_in child_path
declared-on_disk = refl

expected_after_blocklist_lem_example : expected_after_blocklist none declared ≡ (
  filter (λ e. not (contains (remove_blocked_files none release).gone e.path)) declared,
  length (filter (λ e. contains (remove_blocked_files none release).gone e.path) declared),
)
expected_after_blocklist_lem_example =
    expected_after_blocklist_lem none (codes "release") entries declared release-readable
      declared-on_disk

dir_has_usable_files_lem_test : dir_has_usable_files release ≡ any is_usable (files_in [] release)
dir_has_usable_files_lem_test = dir_has_usable_files_lem release

small : payload_bytes (files_in [] release) < 2 ^ 63
unfolding files_in
small = omega arith

validate_partial_download_iff_example :
    (validate_partial_download (some release) 2000000 ≡ true) ↔ (
      (is_sound release ≡ true)
      × ((0 < length (payload_of (files_in [] release)))
          × IsPlausible 2000000 (payload_bytes (files_in [] release))))
validate_partial_download_iff_example =
    validate_partial_download_iff (codes "release") entries 2000000 small (omega arith)

resume_test : validate_partial_download (some release) 2000000 ≡ true
unfolding validate_partial_download resume_visit count_payload walk walk_node walk_nodes child_path
resume_test = refl

stub_test : validate_partial_download (some release) 9000000 ≡ false
unfolding validate_partial_download resume_visit count_payload walk walk_node walk_nodes child_path
stub_test = refl
