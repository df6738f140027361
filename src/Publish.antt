-- ===== src/Publish.antt =====
-- services/publish_pipeline.go: PublishDirectory from the staging to the NZB, as the sequence of
-- what it does. The metadata pass before it, and the lines for the log and the progress, are left
-- out.
pub mod Protocol
pub mod Audit
pub mod Sheltered
mod Tests
use loon_agent.Prelude.{
  ℕ, zero, suc, Bool, true, false, Option, none, some, List, [], ◌∷◌, ◌++◌, if◌then◌else◌, Bytes,
}
use loon_agent.FileTree.{Node, dir, lost, nil}
use loon_agent.Upload.Stage.{FileSystem, Staging, Result, ok, err, copy_files, obfuscate_files}
use loon_agent.Upload.Manifest.{ManifestError, manifest_of, compare_manifest}
use loon_agent.Upload.Usenet.{NzbSegment}

-- The six extractors of steps 4.5 to 4.10.
pub data Extractor : Type 0 where
  rar_archives zip_archives seven_zip_archives iso_images tar_archives misc_archives : Extractor

abbrev pub extractors : List Extractor
extractors =
    rar_archives ∷ zip_archives ∷ seven_zip_archives ∷ iso_images ∷ tar_archives ∷ misc_archives
    ∷ []

-- What GeneratePAR2 returns: an error, or the number of files.
pub data Recovery : Type 0 where
  recovery_failed : Recovery
  recovery_files : ℕ → Recovery

-- client.StageRecord of "par2".
pub data StageRecord : Type 0 where
  stage_empty : StageRecord
  stage_ok : ℕ → StageRecord

pub data Level : Type 0 where
  error warn : Level

-- The configuration, the content, and what the calls out of the pipeline do. `seal` stands for the
-- encryption, whose result is what the new directory then holds, `none` being its error; the errors
-- of MkdirAll and Rename there are passed over, and leave that directory empty.
pub record PublishJob : Type 0 where
  pub obfuscate : Bool
  pub encrypt : Bool
  pub content : Option Node
  pub stage_made : Bool
  pub files : FileSystem
  pub is_cancelled : Bytes → Bool
  pub random : ℕ → Bytes
  pub extract : Extractor → Node → Node
  pub recover : Node → Node × Recovery
  pub password : Bytes
  pub seal : Node → Bytes → Option Node
  pub upload : Node → Option (List (List NzbSegment))
  pub assemble : List (List NzbSegment) → Bytes → Option Bytes

-- The Step of a PublishError.
pub data PublishStep : Type 0 where
  prepare encrypting manifest_mismatch uploading nzb : PublishStep

-- The NZB with the password, which is empty if there is none.
pub data PublishResult : Type 0 where
  published : Bytes → Bytes → PublishResult
  failed : PublishStep → PublishResult

-- What the pipeline does, in order. Audits carry the outcome, uploads the directory.
pub data Event : Type 0 where
  stage_created path_published staged : Event
  extracted : Extractor → Event
  recovered : StageRecord → Event
  logged : Level → Event
  archive_begun archive_sealed slot_locked : Event
  audit_failed : ManifestError → Event
  audit_passed : Event
  uploaded : Node → Event
  slot_unlocked sealed_removed archive_removed stage_removed path_cleared : Event

abbrev pub Publishing : Type 0
Publishing = PublishResult × List Event

-- Step 4, without the directory: the copy, or the obfuscated copy.
unfoldable pub prepare_stage : PublishJob → Staging × Result (Unit {0})
unfolding copy_files obfuscate_files
prepare_stage job =
    if job.obfuscate
    then obfuscate_files job.files job.is_cancelled job.random job.content (dir [] nil)
    else copy_files job.files job.is_cancelled job.content (dir [] nil)

-- Steps 4.5 to 4.10: whatever an extractor returns, the next one follows.
unfoldable pub extract_all : PublishJob → List Extractor → Node → Node
extract_all job [] stage = stage
extract_all job (ex ∷ exs) stage = extract_all job exs (job.extract ex stage)

abbrev extractions : List Extractor → List Event
extractions [] = []
extractions (ex ∷ exs) = extracted ex ∷ extractions exs

-- Step 5: no recovery data is no failure.
abbrev pub recovery_events : Recovery → List Event
recovery_events recovery_failed = logged error ∷ recovered stage_empty ∷ []
recovery_events (recovery_files zero) = logged warn ∷ recovered stage_empty ∷ []
recovery_events (recovery_files (suc n)) = recovered (stage_ok (suc n)) ∷ []

-- Step 8.
abbrev pub assembled : Bytes → Option Bytes → PublishResult
assembled password none = failed nzb
assembled password (some xml) = published xml password

-- The upload of step 7.
abbrev pub after_upload : PublishJob → Bytes → Option (List (List NzbSegment)) → PublishResult
after_upload job password none = failed uploading
after_upload job password (some segments) = assembled password (job.assemble segments password)

abbrev pub content_node : Option Node → Node
content_node none = lost []
content_node (some tree) = tree

-- The audit of step 7, and the upload.
abbrev pub after_audit : PublishJob → Bytes → Node → Option ManifestError → Publishing
after_audit job password upload_dir (some e) =
    (failed manifest_mismatch, audit_failed e ∷ logged error ∷ [])
after_audit job password upload_dir none =
    (after_upload job password (job.upload upload_dir), audit_passed ∷ uploaded upload_dir ∷ [])

unfoldable pub audit_and_upload : PublishJob → Bytes → Node → Publishing
unfolding manifest_of compare_manifest
audit_and_upload job password upload_dir =
    after_audit job password upload_dir (
      compare_manifest (manifest_of (content_node job.content)) (manifest_of upload_dir)
        job.encrypt)

-- The deferred calls run on every way out, the last one first.
abbrev pub in_slot : Publishing → Publishing
in_slot (r, events) = (r, slot_locked ∷ (events ++ (slot_unlocked ∷ [])))

abbrev pub in_sealed : Publishing → Publishing
in_sealed (r, events) =
    (r, archive_begun ∷ archive_sealed ∷ (events ++ (sealed_removed ∷ archive_removed ∷ [])))

-- Step 6, and step 7 on the directory that it makes.
abbrev pub after_seal : PublishJob → Option Node → Publishing
after_seal job none = (failed encrypting, archive_begun ∷ archive_removed ∷ [])
after_seal job (some sealed) = in_sealed (in_slot (audit_and_upload job job.password sealed))

unfoldable pub seal_and_upload : PublishJob → Node → Publishing
unfolding audit_and_upload
seal_and_upload job stage =
    if job.encrypt
    then after_seal job (job.seal stage job.password)
    else in_slot (audit_and_upload job [] stage)

abbrev pub with_recovery : PublishJob → Node × Recovery → Publishing
with_recovery job (stage, recovery) =
    let (r, events) = seal_and_upload job stage in (r, recovery_events recovery ++ events)

-- Steps 4.5 to 8, on a stage that is filled.
abbrev pub after_prepare : PublishJob → Staging × Result (Unit {0}) → Publishing
after_prepare job (s, err e) = (failed prepare, [])
after_prepare job (s, ok u) =
    let (r, events) = with_recovery job (job.recover (extract_all job extractors s.dst)) in
    (r, staged ∷ (extractions extractors ++ events))

abbrev pub in_stage : Publishing → Publishing
in_stage (r, events) =
    (r, stage_created ∷ path_published ∷ (events ++ (stage_removed ∷ path_cleared ∷ [])))

unfoldable pub publish_directory : PublishJob → Publishing
unfolding prepare_stage extract_all seal_and_upload
publish_directory job =
    if job.stage_made
    then in_stage (after_prepare job (prepare_stage job))
    else (failed prepare, [])
