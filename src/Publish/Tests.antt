-- ===== src/Publish/Tests.antt =====
-- Runs of PublishDirectory on a small content.
use loon_agent.Prelude.{
  Option, ◌≤◌, ◌≡◌, refl, true, false, none, some, [], ◌∷◌, length, codes, ◌++◌, List, Bytes,
}
use loon_agent.FileTree.{Node, FileInfo, file, dir, nil, cons, regular, child_path}
use loon_agent.Upload.Stage.{FileSystem, link_or_copy, count_staged_files, ok}
use loon_agent.Upload.Content.{is_uploadable_content}
use loon_agent.Upload.Manifest.Census.{features}
use loon_agent.Publish.{
  PublishJob, published, failed, recovery_files, manifest_mismatch, content_node, prepare_stage,
  publish_directory, stage_created, path_published, staged, extracted, rar_archives, zip_archives,
  seven_zip_archives, iso_images, tar_archives, misc_archives, recovered, stage_ok, slot_locked,
  audit_passed, slot_unlocked, stage_removed, path_cleared, uploaded, Event,
}
use loon_agent.Dict.{get}
use loon_agent.Storage.State.{Jobs, new_job}
use loon_agent.Disk.Sweep.{Entry}
use loon_agent.Publish.Sheltered.{IsSpared, jobs_after, publish_directory-IsSpared}
use loon_agent.Publish.Protocol.{follow, nothing_held, publish_directory-follow}
use loon_agent.Publish.Audit.{Uploads, filled_stage, publish_directory-published}

abbrev movie : FileInfo
movie = record { name = codes "a.mkv"; size = 2000000; kind = regular }

-- A copy at the root of the stage.
abbrev put_in : Bytes → Bytes → FileInfo → Node → Option Node
put_in path to i (dir n entries) = some (dir n (cons (file i) entries))
put_in path to i _ = none

abbrev linking : FileSystem
linking = record {
  link = put_in;
  opens = λ p. false;
  create = λ to t. none;
  stat_size = λ p. none;
  truncate = λ to n t. none;
  copy_buffer = λ p to i t. none;
}

abbrev plain_job : PublishJob
plain_job = record {
  obfuscate = false;
  encrypt = false;
  content = some (dir (codes "dl") (cons (file movie) nil));
  stage_made = true;
  files = linking;
  is_cancelled = λ p. false;
  random = λ n. codes "r";
  extract = λ ex d. d;
  recover = λ d. (d, recovery_files 3);
  password = codes "pw";
  seal = λ d pw. none;
  upload = λ d. some ([] ∷ []);
  assemble = λ segments pw. some (codes "<nzb>");
}

published_test : (publish_directory plain_job).0 ≡ published (codes "<nzb>") []
unfolding publish_directory link_or_copy child_path is_uploadable_content count_staged_files
published_test = refl

-- An extractor that loses the video: nothing is uploaded.
lossy_test :
    (publish_directory (record plain_job { extract = λ ex d. dir [] nil })).0
    ≡ failed manifest_mismatch
unfolding publish_directory link_or_copy child_path is_uploadable_content count_staged_files
lossy_test = refl

publish_directory-follow_example :
    follow (publish_directory plain_job).1 nothing_held ≡ some nothing_held
publish_directory-follow_example = publish_directory-follow plain_job

publish_directory-published_example :
    (true ≡ true)
    × (((prepare_stage plain_job).1 ≡ ok tt)
        × ((length (features (content_node plain_job.content))
              ≤ length (features (filled_stage plain_job)))
            × Uploads plain_job (codes "<nzb>") [] [] (some ([] ∷ []))))
publish_directory-published_example =
    publish_directory-published plain_job (codes "<nzb>") [] refl published_test

abbrev plain_stage : Node
plain_stage = dir [] (cons (file movie) nil)

abbrev until_upload : List Event
until_upload =
    stage_created
    ∷ path_published
    ∷ staged
    ∷ extracted rar_archives
    ∷ extracted zip_archives
    ∷ extracted seven_zip_archives
    ∷ extracted iso_images
    ∷ extracted tar_archives
    ∷ extracted misc_archives
    ∷ recovered (stage_ok 3)
    ∷ slot_locked
    ∷ audit_passed
    ∷ []

after_upload_test :
    (publish_directory plain_job).1
    ≡ until_upload ++ (uploaded plain_stage ∷ slot_unlocked ∷ stage_removed ∷ path_cleared ∷ [])
unfolding publish_directory link_or_copy child_path is_uploadable_content count_staged_files
after_upload_test = refl

abbrev known_jobs : Jobs
known_jobs = (codes "job", some (new_job (codes "job"))) ∷ []

abbrev stage_path : Bytes
stage_path = codes "/tmp/stage-x"

abbrev stage_entry : List Entry
stage_entry = record { name = codes "stage-x"; modified = some 0; is_stuck = false } ∷ []

publish_directory-IsSpared_example :
    IsSpared stage_path 0 9 true stage_entry
      (jobs_after (codes "job") stage_path until_upload known_jobs)
unfolding get
publish_directory-IsSpared_example =
    publish_directory-IsSpared plain_job (codes "job") stage_path known_jobs (new_job (codes "job"))
      until_upload (slot_unlocked ∷ stage_removed ∷ path_cleared ∷ []) plain_stage 0 9 true
      stage_entry (λ h. cc) refl after_upload_test
