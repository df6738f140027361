-- ===== src/Publish/Protocol.antt =====
-- services/publish_pipeline.go: the order that every run of PublishDirectory keeps to.
use loon_agent.Prelude.{
  ◌≡◌, refl, sym, ap, ◌∙◌, Bool, true, false, ◌&&◌, not, Option, none, some, List, [], ◌∷◌, ◌++◌,
  Bytes, if_both, zero, suc, fun_ext,
}
use loon_agent.FileTree.{Node}
use loon_agent.Upload.Stage.{Staging, Result, ok, err}
use loon_agent.Upload.Manifest.{ManifestError, manifest_of, compare_manifest}
use loon_agent.Publish.{
  PublishJob, Event, stage_created, path_published, staged, extracted, recovered, logged,
  archive_begun, archive_sealed, slot_locked, audit_failed, audit_passed, uploaded, slot_unlocked,
  sealed_removed, archive_removed, stage_removed, path_cleared, Publishing, Recovery,
  recovery_failed, recovery_files, recovery_events, content_node, after_audit, audit_and_upload,
  in_slot, after_seal, seal_and_upload, after_prepare, prepare_stage, extract_all, extractors,
  in_stage, failed, prepare, publish_directory,
}

-- What a run holds: its stage directory, the path of it in the job's state, which keeps the sweep
-- away, the encrypted archive and its directory, and the upload slot. `passed` tells that the audit
-- has passed within the slot.
pub record Held : Type 0 where
  pub stage : Bool
  pub path : Bool
  pub archive : Bool
  pub sealed : Bool
  pub slot : Bool
  pub passed : Bool

abbrev pub nothing_held : Held
nothing_held = record {
  stage = false;
  path = false;
  archive = false;
  sealed = false;
  slot = false;
  passed = false;
}

abbrev pub allowed : Bool → Held → Option Held
allowed true h = some h
allowed false h = none

-- An event that is allowed, and what is held after it.
unfoldable pub follow_one : Event → Held → Option Held
follow_one stage_created h = allowed (not h.stage) (record h { stage = true })
follow_one path_published h = allowed h.stage (record h { path = true })
follow_one staged h = allowed (h.stage && h.path) h
follow_one (extracted ex) h = allowed (h.stage && h.path) h
follow_one (recovered r) h = allowed (h.stage && h.path) h
follow_one (logged level) h = some h
follow_one archive_begun h = allowed (h.stage && not h.archive) (record h { archive = true })
follow_one archive_sealed h = allowed (h.archive && not h.sealed) (record h { sealed = true })
follow_one slot_locked h = allowed (not h.slot) (record h { slot = true })
follow_one (audit_failed e) h = allowed h.slot h
follow_one audit_passed h = allowed h.slot (record h { passed = true })
follow_one (uploaded d) h = allowed (h.stage && h.path && h.slot && h.passed) h
follow_one slot_unlocked h = allowed h.slot (record h { slot = false; passed = false })
follow_one sealed_removed h = allowed (h.sealed && not h.slot) (record h { sealed = false })
follow_one archive_removed h = allowed (h.archive && not h.sealed) (record h { archive = false })
follow_one stage_removed h =
    allowed (h.stage && not h.archive && not h.slot) (record h { stage = false })
follow_one path_cleared h = allowed (h.path && not h.stage) (record h { path = false })

abbrev pub and_then : Option Held → (Held → Option Held) → Option Held
and_then none k = none
and_then (some h) k = k h

-- `none` is a sequence that breaks the order.
unfoldable pub follow : List Event → Held → Option Held
unfolding follow_one
follow [] h = some h
follow (e ∷ events) h = and_then (follow_one e h) (follow events)

and_then_assoc :
    (o : Option Held) (f g : Held → Option Held)
    → and_then (and_then o f) g ≡ and_then o (λ h. and_then (f h) g)
and_then_assoc none f g = refl
and_then_assoc (some h) f g = refl

pub follow-append :
    (xs ys : List Event) (h : Held) → follow (xs ++ ys) h ≡ and_then (follow xs h) (follow ys)
unfolding follow
follow-append [] ys h = refl
follow-append (e ∷ xs) ys h =
    ap (and_then (follow_one e h)) (fun_ext (λ g. follow-append xs ys g))
    ∙ sym (and_then_assoc (follow_one e h) (follow xs) (follow ys))

-- A part of the run that gives back all that it takes.
abbrev Returns : List Event → Held → Type 0
Returns events h = follow events h ≡ some h

Returns-append :
    (xs ys : List Event) (h : Held) → Returns xs h → Returns ys h → Returns (xs ++ ys) h
Returns-append xs ys h a b = rw (follow-append xs ys h, a) b

module _ (job : PublishJob) where
  -- With the stage, and with or without the archive.
  abbrev with_stage : Bool → Held
  with_stage b = record {
    stage = true;
    path = true;
    archive = b;
    sealed = b;
    slot = false;
    passed = false;
  }

  after_audit-Returns :
      (b : Bool) (password : Bytes) (d : Node) (o : Option ManifestError)
      → Returns (in_slot (after_audit job password d o)).1 (with_stage b)
  unfolding follow
  after_audit-Returns b password d none = refl
  after_audit-Returns b password d (some e) = refl

  slot-Returns :
      (b : Bool) (password : Bytes) (d : Node)
      → Returns (in_slot (audit_and_upload job password d)).1 (with_stage b)
  unfolding audit_and_upload
  slot-Returns b password d =
      after_audit-Returns b password d
        (compare_manifest (manifest_of (content_node job.content)) (manifest_of d) job.encrypt)

  after_seal-Returns : (o : Option Node) → Returns (after_seal job o).1 (with_stage false)
  unfolding follow
  after_seal-Returns none = refl
  after_seal-Returns (some d) =
      follow-append (in_slot (audit_and_upload job job.password d)).1 _ (with_stage true)
      ∙ (rw (slot-Returns true job.password d) refl)

  seal_and_upload-Returns :
      (stage : Node) → Returns (seal_and_upload job stage).1 (with_stage false)
  unfolding seal_and_upload
  seal_and_upload-Returns stage =
      if_both job.encrypt (λ p. Returns p.1 (with_stage false))
        (after_seal job (job.seal stage job.password)) (in_slot (audit_and_upload job [] stage))
        (after_seal-Returns (job.seal stage job.password)) (slot-Returns false [] stage)

  recovery-Returns : (r : Recovery) → Returns (recovery_events r) (with_stage false)
  unfolding follow
  recovery-Returns recovery_failed = refl
  recovery-Returns (recovery_files zero) = refl
  recovery-Returns (recovery_files (suc n)) = refl

  after_prepare-Returns :
      (r : Staging × Result (Unit {0})) → Returns (after_prepare job r).1 (with_stage false)
  unfolding follow
  after_prepare-Returns (s, err e) = refl
  after_prepare-Returns (s, ok u) =
      let (stage, recovery) = job.recover (extract_all job extractors s.dst) in
      Returns-append (recovery_events recovery) (seal_and_upload job stage).1 (with_stage false)
        (recovery-Returns recovery) (seal_and_upload-Returns stage)

  in_stage-Returns :
      (p : Publishing) → Returns p.1 (with_stage false) → Returns (in_stage p).1 nothing_held
  unfolding follow
  in_stage-Returns p h = follow-append p.1 _ (with_stage false) ∙ (rw h refl)

-- On every way through PublishDirectory, whatever the calls out of it return: a directory is only
-- uploaded while the run holds the upload slot, after the audit has passed within it, and while the
-- stage directory is there and its path in the job's state. When the run ends, the slot is free,
-- then the encrypted archive and its directory are removed, then the stage, and the path is cleared
-- last.
pub publish_directory-follow :
    (job : PublishJob) → follow (publish_directory job).1 nothing_held ≡ some nothing_held
unfolding publish_directory follow
publish_directory-follow job =
    if_both job.stage_made (λ p. follow p.1 nothing_held ≡ some nothing_held)
      (in_stage (after_prepare job (prepare_stage job))) (failed prepare, [])
      (in_stage-Returns job (after_prepare job (prepare_stage job))
        (after_prepare-Returns job (prepare_stage job)))
      refl
