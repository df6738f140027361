-- ===== src/Storage/State/Live.antt =====
-- storage/storage.go: a job stays in the state until it is removed.
use loon_agent.Prelude.{
  ◌≡◌, refl, Bool, true, false, ◌||◌, Option, none, some, List, [], ◌∷◌, arith, Bytes, equal,
  equal_refl, ◌≢◌, all, not, Option-cases, inl, inr, Bool-cases,
}
use loon_agent.Dict.{get, put, get-put, get-remove}
use loon_agent.Storage.State.{
  JobState, Jobs, Op, update_state, update_job_meta, set_job_title, set_job_stage_path, remove_job,
  write_at, created_at, update_meta, or_new, new_job, with_meta, apply, run,
}

-- The call removes the job of this name.
abbrev pub removes : Bytes → Op → Bool
removes name (remove_job other) = equal other name
removes name _ = false

abbrev live : Option (Option JobState) → Bool
live (some (some _)) = true
live _ = false

abbrev pub is_live : Jobs → Bytes → Bool
is_live jobs name = live (get jobs name)

module _ (jobs : Jobs) (name : Bytes) where
  put-is_live :
      (other : Bytes) (job : JobState)
      → is_live (put jobs other (some job)) name ≡ (equal other name || is_live jobs name)
  put-is_live other job = ground (arith, get-put jobs other (some job) name)

  put_keeps :
      (other : Bytes) (job : JobState)
      → is_live jobs name ≡ true
      → is_live (put jobs other (some job)) name ≡ true
  put_keeps other job h = ground (arith, put-is_live other job)

  created_at-is_live :
      (other : Bytes) (o : Option (Option JobState))
      → is_live jobs name ≡ true
      → is_live (created_at jobs other o) name ≡ true
  created_at-is_live other none h = put_keeps other (new_job other) h
  created_at-is_live other (some _) h = h

write_at-is_live :
    (jobs : Jobs) {jobs' : Jobs} (name other : Bytes) (f : JobState → JobState)
    (o : Option (Option JobState))
    → is_live jobs name ≡ true
    → write_at jobs other f o ≡ some jobs'
    → is_live jobs' name ≡ true
write_at-is_live jobs name other f none h e = ground arith
write_at-is_live jobs name other f (some none) h e = cc
write_at-is_live jobs name other f (some (some job)) h e =
    ground (arith, put_keeps jobs name other (f job))

update_meta-is_live :
    (jobs : Jobs) {jobs' : Jobs} (name other path password zip_name : Bytes)
    (o : Option (Option JobState))
    → is_live jobs name ≡ true
    → update_meta jobs other path password zip_name o ≡ some jobs'
    → is_live jobs' name ≡ true
update_meta-is_live jobs name other path password zip_name (some none) h e = ground arith
update_meta-is_live jobs name other path password zip_name none h e =
    write_at-is_live jobs name other (λ job. with_meta job path password zip_name) none h e
update_meta-is_live jobs name other path password zip_name (some (some job)) h e =
    write_at-is_live jobs name other (λ job. with_meta job path password zip_name) (some (some job))
      h e

apply-is_live :
    (jobs : Jobs) {jobs' : Jobs} (op : Op) (name : Bytes)
    → removes name op ≡ false
    → is_live jobs name ≡ true
    → apply jobs op ≡ some jobs'
    → is_live jobs' name ≡ true
unfolding apply
apply-is_live jobs (update_state other phase details) name r h e =
    write_at-is_live (or_new jobs other) name other
      (λ job. record job { phase = phase; details = details }) (get (or_new jobs other) other)
      (created_at-is_live jobs name other (get jobs other) h) e
apply-is_live jobs (update_job_meta other path password zip_name) name r h e =
    update_meta-is_live jobs name other path password zip_name (get jobs other) h e
apply-is_live jobs (set_job_title other title) name r h e =
    elim (Bool-cases (equal other [] || equal title [])) [
      | inl skip ↦ let same = rw skip at e in ground (arith, same)
      | inr write ↦
          write_at-is_live jobs name other (λ job. record job { title = title }) (get jobs other) h
            (rw write at e)
    ]
apply-is_live jobs (set_job_stage_path other stage_path) name r h e =
    write_at-is_live jobs name other (λ job. record job { stage_path = stage_path })
      (get jobs other) h e
apply-is_live jobs (remove_job other) name r h e = ground (arith, get-remove jobs other name)

-- Calls that do not remove a job leave it in the state.
pub run-is_live :
    (jobs : Jobs) {jobs' : Jobs} (ops : List Op) (name : Bytes)
    → all (λ op. not (removes name op)) ops ≡ true
    → is_live jobs name ≡ true
    → run jobs ops ≡ some jobs'
    → is_live jobs' name ≡ true
unfolding run
run-is_live jobs [] name r h e = ground arith
run-is_live jobs (op ∷ ops) name r h e = elim (Option-cases (apply jobs op)) [
  | inl panic ↦ let e' = rw (panic, run) at e in cc
  | inr (next, p) ↦
      run-is_live next ops name (ground arith) (apply-is_live jobs op name (ground arith) h p)
        (rw (p, run) at e)
]

get-created_at :
    (jobs : Jobs) (name : Bytes) (o : Option (Option JobState))
    → get jobs name ≡ o
    → get (created_at jobs name o) name ≢ none
get-created_at jobs name none g = rw (get-put, equal_refl) (λ h. cc)
get-created_at jobs name (some j) g = λ h. cc

write_at_self :
    (jobs : Jobs) {jobs' : Jobs} (name : Bytes) (f : JobState → JobState)
    (o : Option (Option JobState))
    → o ≢ none
    → write_at jobs name f o ≡ some jobs'
    → is_live jobs' name ≡ true
write_at_self jobs name f none h e = absurd (h refl)
write_at_self jobs name f (some none) h e = cc
write_at_self jobs name f (some (some job)) h e =
    ground (arith, put-is_live jobs name name (f job), equal_refl name)

-- After UpdateState the job is in the state.
pub update_state-is_live :
    (jobs : Jobs) {jobs' : Jobs} (name phase details : Bytes)
    → apply jobs (update_state name phase details) ≡ some jobs'
    → is_live jobs' name ≡ true
unfolding apply
update_state-is_live jobs name phase details e =
    write_at_self (or_new jobs name) name (λ job. record job { phase = phase; details = details })
      (get (or_new jobs name) name) (get-created_at jobs name (get jobs name) refl) e

pub live_job :
    (jobs : Jobs) (name : Bytes)
    → is_live jobs name ≡ true
    → (job : JobState) × (get jobs name ≡ some (some job))
live_job jobs name h = ground arith
