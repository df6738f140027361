-- ===== src/Storage/State.antt =====
-- storage/storage.go: the in-memory map of the jobs in flight. SaveState's file is not modelled, and
-- texts that only the UI shows (Progress, UpdatedAt) are left out of the record.
pub mod Live
use loon_agent.Prelude.{Option, none, some, List, [], ◌∷◌, Bytes, equal, if◌then◌else◌, ◌||◌, ◌&&◌}
use loon_agent.Dict.{Dict, get, put, remove}

pub record JobState : Type 0 where
  pub name : Bytes
  pub title : Bytes
  pub phase : Bytes
  pub details : Bytes
  pub downloaded_path : Bytes
  pub stage_path : Bytes
  pub password : Bytes
  pub zip_name : Bytes

-- map[string]*JobState: a pointer read back from the state file may be nil.
abbrev pub Jobs : Type 0
Jobs = Dict (Option JobState)

-- A call of the package; UpdateState, UpdateJobMeta, SetJobTitle, SetJobStagePath and RemoveJob.
pub data Op : Type 0 where
  update_state : Bytes → Bytes → Bytes → Op
  update_job_meta : Bytes → Bytes → Bytes → Bytes → Op
  set_job_title : Bytes → Bytes → Op
  set_job_stage_path : Bytes → Bytes → Op
  remove_job : Bytes → Op

abbrev pub new_job : Bytes → JobState
new_job name = record {
  name = name;
  title = [];
  phase = [];
  details = [];
  downloaded_path = [];
  stage_path = [];
  password = [];
  zip_name = [];
}

-- `if v != "" { field = v }`
abbrev pub non_empty_or : Bytes → Bytes → Bytes
non_empty_or v old = if equal v [] then old else v

abbrev pub with_meta : JobState → Bytes → Bytes → Bytes → JobState
with_meta job path password zip_name = record job {
  downloaded_path = non_empty_or path job.downloaded_path;
  password = non_empty_or password job.password;
  zip_name = non_empty_or zip_name job.zip_name;
}

-- Write through the pointer of a job that exists. A write through a nil pointer is a panic: `none`.
abbrev pub write_at : Jobs → Bytes → (JobState → JobState) → Option (Option JobState) → Option Jobs
write_at jobs name f none = some jobs
write_at jobs name f (some none) = none
write_at jobs name f (some (some job)) = some (put jobs name (some (f job)))

abbrev pub modify : Jobs → Bytes → (JobState → JobState) → Option Jobs
modify jobs name f = write_at jobs name f (get jobs name)

abbrev pub created_at : Jobs → Bytes → Option (Option JobState) → Jobs
created_at jobs name none = put jobs name (some (new_job name))
created_at jobs name (some _) = jobs

abbrev pub or_new : Jobs → Bytes → Jobs
or_new jobs name = created_at jobs name (get jobs name)

-- UpdateJobMeta touches a nil pointer only where it has something to write.
abbrev pub update_meta :
    Jobs → Bytes → Bytes → Bytes → Bytes → Option (Option JobState) → Option Jobs
update_meta jobs name path password zip_name (some none) =
    if equal path [] && equal password [] && equal zip_name [] then some jobs else none
update_meta jobs name path password zip_name o =
    write_at jobs name (λ job. with_meta job path password zip_name) o

unfoldable pub apply : Jobs → Op → Option Jobs
apply jobs (update_state name phase details) =
    modify (or_new jobs name) name (λ job. record job { phase = phase; details = details })
apply jobs (update_job_meta name path password zip_name) =
    update_meta jobs name path password zip_name (get jobs name)
apply jobs (set_job_title name title) =
    if equal name [] || equal title []
    then some jobs
    else modify jobs name (λ job. record job { title = title })
apply jobs (set_job_stage_path name stage_path) =
    modify jobs name (λ job. record job { stage_path = stage_path })
apply jobs (remove_job name) = if equal name [] then some jobs else some (remove jobs name)

unfoldable pub run : Jobs → List Op → Option Jobs
run jobs [] = some jobs
run jobs (op ∷ ops) = elim (apply jobs op) [ none ↦ none | some jobs' ↦ run jobs' ops ]
