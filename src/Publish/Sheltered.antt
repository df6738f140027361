-- ===== src/Publish/Sheltered.antt =====
-- services/publish_pipeline.go with storage/storage.go and the sweep of services/disk_reserve_sweep.go:
-- the stage of a run is safe from the sweep.
use loon_agent.Prelude.{
  ℕ, ◌≡◌, ◌≢◌, refl, sym, ap, ◌∙◌, subst, Bool, true, false, Option, none, some, List, [], ◌∷◌,
  ◌++◌, ◌&&◌, Bytes, contains, equal_refl, none_ne_some,
}
use mathlib.Core.Bool.{true≢false}
use loon_agent.FilePath.{base}
use loon_agent.FileTree.{Node}
use loon_agent.Dict.{get, put, get-put}
use loon_agent.Storage.State.{JobState, Jobs, set_job_stage_path, apply}
use loon_agent.Disk.Sweep.{Entry, sweep_with_min_age}
use loon_agent.Disk.Sweep.Safety.{sweep_spares_stage}
use loon_agent.Publish.{
  PublishJob, Event, stage_created, path_published, staged, extracted, recovered, logged,
  archive_begun, archive_sealed, slot_locked, audit_failed, audit_passed, uploaded, slot_unlocked,
  sealed_removed, archive_removed, stage_removed, path_cleared, publish_directory,
}
use loon_agent.Publish.Protocol.{
  Held, nothing_held, allowed, and_then, follow_one, follow, follow-append,
  publish_directory-follow,
}

-- The calls of SetJobStagePath among the events, for the job `name` and its stage `stage`.
abbrev jobs_then : Option Jobs → (Jobs → Option Jobs) → Option Jobs
jobs_then none k = none
jobs_then (some jobs) k = k jobs

abbrev pub set_path : Bytes → Bytes → Event → Jobs → Option Jobs
set_path name stage path_published jobs = apply jobs (set_job_stage_path name stage)
set_path name stage path_cleared jobs = apply jobs (set_job_stage_path name [])
set_path name stage _ jobs = some jobs

unfoldable pub jobs_after : Bytes → Bytes → List Event → Jobs → Option Jobs
jobs_after name stage [] jobs = some jobs
jobs_after name stage (e ∷ events) jobs =
    jobs_then (set_path name stage e jobs) (jobs_after name stage events)

allowed-some : (b : Bool) (h g : Held) → allowed b h ≡ some g → h ≡ g
allowed-some true h g e = cc
allowed-some false h g e = cc

held_path : Option Held → Bool
held_path none = false
held_path (some h) = h.path

-- The job is there, with the path of the stage if the run holds it.
record Shelters (name stage : Bytes) (h : Held) (jobs : Jobs) : Type 0 where
  job : JobState
  found : get jobs name ≡ some (some job)
  sheltered : h.path ≡ true → job.stage_path ≡ stage

Sheltered : Bytes → Bytes → Held → Option Jobs → Type 0
Sheltered name stage h none = ⊥
Sheltered name stage h (some jobs) = Shelters name stage h jobs

module _ (name stage : Bytes) where
  set_found :
      (jobs : Jobs) (job : JobState) (p : Bytes)
      → get jobs name ≡ some (some job)
      → apply jobs (set_job_stage_path name p)
        ≡ some (put jobs name (some (record job { stage_path = p })))
  unfolding apply
  set_found jobs job p found = rw found refl

  get_found : (jobs : Jobs) (job : JobState) → get (put jobs name (some job)) name ≡ some (some job)
  get_found jobs job = get-put jobs name (some job) name ∙ (rw (equal_refl name) refl)

  same_path :
      (h g : Held) (jobs : Jobs)
      → h.path ≡ g.path
      → Shelters name stage h jobs
      → Shelters name stage g jobs
  same_path h g jobs e s = record {
    job = s.job;
    found = s.found;
    sheltered = λ p. s.sheltered (e ∙ p);
  }

  keeps_path :
      (b : Bool) (h x g : Held) (jobs : Jobs)
      → h.path ≡ x.path
      → allowed b x ≡ some g
      → Shelters name stage h jobs
      → Sheltered name stage g (some jobs)
  unfolding Sheltered
  keeps_path b h x g jobs same e s =
      same_path h g jobs (same ∙ ap (λ y. y.path) (allowed-some b x g e)) s

  event-Sheltered :
      (e : Event) (h g : Held) (jobs : Jobs)
      → follow_one e h ≡ some g
      → Shelters name stage h jobs
      → Sheltered name stage g (set_path name stage e jobs)
  unfolding follow_one Sheltered held_path
  event-Sheltered path_published h g jobs e s = rw (set_found jobs s.job stage s.found) (record {
    job = record s.job { stage_path = stage };
    found = get_found jobs _;
    sheltered = λ p. refl;
  })
  event-Sheltered path_cleared h g jobs e s =
      let cleared : false ≡ g.path = ap (λ y. y.path) (allowed-some _ _ g e) in
      rw (set_found jobs s.job [] s.found) (record {
        job = record s.job { stage_path = [] };
        found = get_found jobs _;
        sheltered = λ p. absurd (true≢false (sym p ∙ sym cleared));
      })
  event-Sheltered (logged level) h g jobs e s = same_path h g jobs (ap held_path e) s
  event-Sheltered stage_created h g jobs e s = keeps_path _ h _ g jobs refl e s
  event-Sheltered staged h g jobs e s = keeps_path _ h _ g jobs refl e s
  event-Sheltered (extracted ex) h g jobs e s = keeps_path _ h _ g jobs refl e s
  event-Sheltered (recovered r) h g jobs e s = keeps_path _ h _ g jobs refl e s
  event-Sheltered archive_begun h g jobs e s = keeps_path _ h _ g jobs refl e s
  event-Sheltered archive_sealed h g jobs e s = keeps_path _ h _ g jobs refl e s
  event-Sheltered slot_locked h g jobs e s = keeps_path _ h _ g jobs refl e s
  event-Sheltered (audit_failed err) h g jobs e s = keeps_path _ h _ g jobs refl e s
  event-Sheltered audit_passed h g jobs e s = keeps_path _ h _ g jobs refl e s
  event-Sheltered (uploaded d) h g jobs e s = keeps_path _ h _ g jobs refl e s
  event-Sheltered slot_unlocked h g jobs e s = keeps_path _ h _ g jobs refl e s
  event-Sheltered sealed_removed h g jobs e s = keeps_path _ h _ g jobs refl e s
  event-Sheltered archive_removed h g jobs e s = keeps_path _ h _ g jobs refl e s
  event-Sheltered stage_removed h g jobs e s = keeps_path _ h _ g jobs refl e s

  after_event :
      (o : Option Held) (q : Option Jobs) (events : List Event) (g : Held)
      → and_then o (follow events) ≡ some g
      → ((h : Held) → o ≡ some h → Sheltered name stage h q)
      → ((h : Held) (jobs : Jobs)
          → follow events h ≡ some g
          → Shelters name stage h jobs
          → Sheltered name stage g (jobs_after name stage events jobs))
      → Sheltered name stage g (jobs_then q (jobs_after name stage events))
  unfolding Sheltered
  after_event none q events g e first rest = absurd (none_ne_some e)
  after_event (some h) none events g e first rest = absurd (first h refl)
  after_event (some h) (some jobs) events g e first rest = rest h jobs e (first h refl)

  events-Sheltered :
      (events : List Event) (h g : Held) (jobs : Jobs)
      → follow events h ≡ some g
      → Shelters name stage h jobs
      → Sheltered name stage g (jobs_after name stage events jobs)
  unfolding follow jobs_after Sheltered held_path
  events-Sheltered [] h g jobs e s = same_path h g jobs (ap held_path e) s
  events-Sheltered (x ∷ events) h g jobs e s =
      after_event (follow_one x h) (set_path name stage x jobs) events g e
        (λ k f. event-Sheltered x h k jobs f s) (λ k js f r. events-Sheltered events k g js f r)

held_then :
    (a b c d : Bool) (h : Held) (k : Held → Option Held) (g : Held)
    → and_then (allowed (a && b && c && d) h) k ≡ some g
    → b ≡ true
held_then a true c d h k g e = refl
held_then true false c d h k g e = absurd (none_ne_some e)
held_then false false c d h k g e = absurd (none_ne_some e)

-- What is held where an upload is allowed to follow.
upload-held :
    (o : Option Held) (d : Node) (after : List Event) (g : Held)
    → and_then o (follow (uploaded d ∷ after)) ≡ some g
    → (h : Held) × (o ≡ some h) × (h.path ≡ true)
unfolding follow follow_one
upload-held none d after g e = absurd (none_ne_some e)
upload-held (some h) d after g e =
    (h, refl, held_then h.stage h.path h.slot h.passed h (follow after) g e)

-- No panic, and a sweep that leaves the entry of the stage alone.
unfoldable pub IsSpared : Bytes → ℕ → ℕ → Bool → List Entry → Option Jobs → Type 0
IsSpared stage min_age now include_extended es none = ⊥
IsSpared stage min_age now include_extended es (some jobs) =
    contains (sweep_with_min_age jobs min_age now include_extended es).1 (base stage) ≡ false

Sheltered-IsSpared :
    (name stage : Bytes) (h : Held) (min_age now : ℕ) (include_extended : Bool) (es : List Entry)
    (o : Option Jobs)
    → stage ≢ []
    → h.path ≡ true
    → Sheltered name stage h o
    → IsSpared stage min_age now include_extended es o
unfolding Sheltered IsSpared
Sheltered-IsSpared name stage h min_age now include_extended es none ne p s = s
Sheltered-IsSpared name stage h min_age now include_extended es (some jobs) ne p s =
    subst
      (λ x. contains (sweep_with_min_age jobs min_age now include_extended es).1 (base x) ≡ false)
      (s.sheltered p)
      (sweep_spares_stage jobs name s.job min_age now include_extended es s.found
        (λ empty. ne (sym (s.sheltered p) ∙ empty)))

-- Whenever a run of PublishDirectory for a job that the state has uploads a directory, its stage,
-- whose path is not empty, is safe: after the calls of SetJobStagePath that the run has made by
-- then, none of which panics, no sweep of the temporary directory removes the entry of the stage.
pub publish_directory-IsSpared :
    (job : PublishJob) (name stage : Bytes) (jobs : Jobs) (state : JobState)
    (before after : List Event) (d : Node) (min_age now : ℕ) (include_extended : Bool)
    (es : List Entry)
    → stage ≢ []
    → get jobs name ≡ some (some state)
    → (publish_directory job).1 ≡ before ++ (uploaded d ∷ after)
    → IsSpared stage min_age now include_extended es (jobs_after name stage before jobs)
publish_directory-IsSpared job name stage jobs state before after d min_age now include_extended es
      ne found e =
    let run = ap (λ events. follow events nothing_held) (sym e) ∙ publish_directory-follow job in
    let (h, held, path) =
      upload-held (follow before nothing_held) d after nothing_held
        (sym (follow-append before (uploaded d ∷ after) nothing_held) ∙ run) in
    Sheltered-IsSpared name stage h min_age now include_extended es
      (jobs_after name stage before jobs) ne path
      (events-Sheltered name stage before nothing_held h jobs held
        (record { job = state; found = found; sheltered = λ p. absurd (true≢false (sym p)) }))
