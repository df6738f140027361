-- ===== src/Publish/Audit.antt =====
-- services/publish_pipeline.go: what stands behind a release that PublishDirectory returns.
use loon_agent.Prelude.{
  ◌≤◌, ◌≡◌, refl, sym, ap, ◌∙◌, inl, inr, true, false, Option, none, some, List, [], length, Bytes,
  Bool-cases, if_false,
}
use mathlib.Core.Bool.{true≢false}
use loon_agent.FileTree.{Node}
use loon_agent.Upload.Stage.{Staging, Result, ok, err}
use loon_agent.Upload.Manifest.{ManifestError, manifest_of, compare_manifest}
use loon_agent.Upload.Manifest.Census.{features, compare_manifest_iff}
use loon_agent.Upload.Usenet.{NzbSegment}
use loon_agent.Publish.{
  PublishJob, published, after_upload, assembled, content_node, after_audit, audit_and_upload,
  in_slot, seal_and_upload, after_prepare, prepare_stage, extract_all, extractors,
  publish_directory,
}

-- The stage with all that the extractors and the recovery have added to it.
unfoldable pub filled_stage : PublishJob → Node
filled_stage job = (job.recover (extract_all job extractors (prepare_stage job).0.dst)).0

module _ (job : PublishJob) (xml password : Bytes) where
  assembled-published :
      (given : Bytes) (o : Option Bytes)
      → assembled given o ≡ published xml password
      → (o ≡ some xml) × (password ≡ given)
  assembled-published given none h = cc
  assembled-published given (some x) h = (cc, cc)

  abbrev pub Uploads : Bytes → Option (List (List NzbSegment)) → Type 0
  Uploads given o =
      (segments : List (List NzbSegment)) × (o ≡ some segments)
      × (job.assemble segments given ≡ some xml)
      × (password ≡ given)

  after_upload-published :
      (given : Bytes) (o : Option (List (List NzbSegment)))
      → after_upload job given o ≡ published xml password
      → Uploads given o
  after_upload-published given none h = cc
  after_upload-published given (some segments) h =
      let (e, p) = assembled-published given (job.assemble segments given) h in
      (segments, refl, e, p)

  after_audit-published :
      (given : Bytes) (d : Node) (o : Option ManifestError)
      → (after_audit job given d o).0 ≡ published xml password
      → (o ≡ none) × Uploads given (job.upload d)
  after_audit-published given d (some e) h = cc
  after_audit-published given d none h = (refl, after_upload-published given (job.upload d) h)

  audit_and_upload-published :
      (given : Bytes) (d : Node)
      → (audit_and_upload job given d).0 ≡ published xml password
      → (compare_manifest (manifest_of (content_node job.content)) (manifest_of d) job.encrypt
          ≡ none)
        × Uploads given (job.upload d)
  unfolding audit_and_upload
  audit_and_upload-published given d h =
      after_audit-published given d
        (compare_manifest (manifest_of (content_node job.content)) (manifest_of d) job.encrypt) h

  after_prepare-published :
      (r : Staging × Result (Unit {0}))
      → (after_prepare job r).0 ≡ published xml password
      → (r.1 ≡ ok tt)
        × ((seal_and_upload job (job.recover (extract_all job extractors r.0.dst)).0).0
            ≡ published xml password)
  after_prepare-published (s, err e) h = cc
  after_prepare-published (s, ok u) h = (refl, h)

  publish-prepared :
      (publish_directory job).0 ≡ published xml password
      → (job.stage_made ≡ true)
        × ((after_prepare job (prepare_stage job)).0 ≡ published xml password)
  unfolding publish_directory
  publish-prepared h = elim (Bool-cases job.stage_made) [
    | inl made ↦ (made, rw made at h)
    | inr lacking ↦ (let g = rw lacking at h in cc)
  ]

  seal_and_upload-plain :
      (stage : Node)
      → job.encrypt ≡ false
      → (seal_and_upload job stage).0 ≡ published xml password
      → (audit_and_upload job [] stage).0 ≡ published xml password
  unfolding seal_and_upload
  seal_and_upload-plain stage e h =
      ap (λ p. p.0) (sym (if_false job.encrypt _ (in_slot (audit_and_upload job [] stage)) e)) ∙ h

at_least :
    (job : PublishJob) (d : Node)
    → job.encrypt ≡ false
    → compare_manifest (manifest_of (content_node job.content)) (manifest_of d) job.encrypt ≡ none
    → length (features (content_node job.content)) ≤ length (features d)
at_least job d plain passed =
    elim ((compare_manifest_iff (content_node job.content) d job.encrypt).0 passed) [
      | inl sealed ↦ absurd (true≢false (sym sealed ∙ plain))
      | inr enough ↦ enough
    ]

-- A release that PublishDirectory returns for a job that is not encrypted has no password; its
-- stage was created and prepared without error, the stage with all that the extractors and the
-- recovery made of it was uploaded and assembled into the NZB, and it has at least as many feature
-- videos as the content.
pub publish_directory-published :
    (job : PublishJob) (xml password : Bytes)
    → job.encrypt ≡ false
    → (publish_directory job).0 ≡ published xml password
    → (job.stage_made ≡ true)
      × (((prepare_stage job).1 ≡ ok tt)
          × ((length (features (content_node job.content)) ≤ length (features (filled_stage job)))
              × Uploads job xml password [] (job.upload (filled_stage job))))
unfolding filled_stage
publish_directory-published job xml password plain h =
    let (made, prepared) = publish-prepared job xml password h in
    let (staged, sealed) = after_prepare-published job xml password (prepare_stage job) prepared in
    let (passed, uploads) =
      audit_and_upload-published job xml password [] (filled_stage job)
        (seal_and_upload-plain job xml password (filled_stage job) plain sealed) in
    (made, (staged, (at_least job (filled_stage job) plain passed, uploads)))
