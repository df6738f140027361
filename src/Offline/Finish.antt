-- ===== src/Offline/Finish.antt =====
-- services/network_offline_processor.go: how a run ends its job.
use loon_agent.Prelude.{
  ℕ, ◌≡◌, refl, ap, ◌∙◌, Bool, true, false, ◌&&◌, Option, none, some, List, [], ◌∷◌, ◌++◌, any,
  ◌==◌, if◌then◌else◌, if_both, Bytes, Bool-cases, inl, inr,
}
use loon_agent.Storage.Offline.{
  OfflineJob, Table, Status, completed, failed, update_job_phase, mark_job_completed,
  mark_job_failed,
}
use loon_agent.Storage.Offline.Reach.{Reach, next, phases, completes, fails}
use loon_agent.Storage.Offline.Refine.{queue_of, replaced, status-set, status-phase}
use loon_agent.Storage.Groups.{Group}
use loon_agent.Offline.Run.{
  JobStep, stat_source, read_torrent, download, wrap_dir, wrap_copy, stage_dir, stage_copy,
  encrypting, enc_dir, enc_rename, upload, nzb, output_dir, write_nzb, Shape, torrent, directory,
  single_file, shape_of, Action, phase, call, Surroundings, Processed, done, broken, done_or,
  process_for, process_in, process_with, act, process_offline_job, finish, run_one_offline_job,
  actions_in, actions_of, job_config,
}

-- Every state of the queue on the way is one that can be reached, and no state of a job changes.
record Quiet (t u : Table) : Type 0 where
  reached : Reach t → Reach u
  same : (k : ℕ) → queue_of u k ≡ queue_of t k

Quiet-refl : (t : Table) → Quiet t t
Quiet-refl t = record { reached = λ r. r; same = λ k. refl }

Quiet-trans : (t u v : Table) → Quiet t u → Quiet u v → Quiet t v
Quiet-trans t u v q r = record {
  reached = λ h. r.reached (q.reached h);
  same = λ k. r.same k ∙ q.same k;
}

phase-Quiet : (id : ℕ) (p : Bytes) (t : Table) → Quiet t (update_job_phase id p 0 t)
unfolding update_job_phase
phase-Quiet id p t = record {
  reached = λ r. next t _ r (phases id p 0);
  same = λ k. status-phase id _ t.rows k (λ r. refl) (λ r. refl);
}

act-Quiet :
    (breaks : JobStep → Bool) (loses : Bytes → Bool) (id : ℕ) (actions : List Action) (t : Table)
    → Quiet t (act breaks loses id actions t).1
unfolding act
act-Quiet breaks loses id [] t = Quiet-refl t
act-Quiet breaks loses id (phase p ∷ actions) t =
    Quiet-trans t (if loses p then t else update_job_phase id p 0 t) _
      (if_both (loses p) (Quiet t) _ _ (Quiet-refl t) (phase-Quiet id p t))
      (act-Quiet breaks loses id actions _)
act-Quiet breaks loses id (call s ∷ actions) t =
    if_both (breaks s) (λ (r : Option JobStep × Table). Quiet t r.1) _ _ (Quiet-refl t)
      (act-Quiet breaks loses id actions t)

done_or-Quiet :
    (path password : Bytes) (t : Table) (r : Option JobStep × Table)
    → Quiet t r.1
    → Quiet t (done_or path password r).1
done_or-Quiet path password t (none, u) q = q
done_or-Quiet path password t (some s, u) q = q

module _ (env : Surroundings) (job : OfflineJob) (t : Table) where
  process_for-Quiet : (g : Group) (names : List Bytes) → Quiet t (process_for env job t g names).1
  process_for-Quiet g [] = Quiet-refl t
  process_for-Quiet g (n ∷ names) =
      done_or-Quiet _ _ t _ (act-Quiet env.breaks env.loses job.id _ t)

  process_in-Quiet : (o : Option Group) → Quiet t (process_in env job t o).1
  process_in-Quiet none = Quiet-refl t
  process_in-Quiet (some g) = process_for-Quiet g g.newsgroups

  process_with-Quiet : (o : Option ℕ) → Quiet t (process_with env job t o).1
  process_with-Quiet none = Quiet-refl t
  process_with-Quiet (some id) = process_in-Quiet env.group

abbrev end_status : Processed → Status
end_status (done path password) = completed
end_status (broken s) = failed

-- The calls of a run that must work, by the shape of its source and whether it encrypts.
abbrev pub source_steps : Shape → List JobStep
source_steps torrent = read_torrent ∷ download ∷ []
source_steps directory = []
source_steps single_file = wrap_dir ∷ wrap_copy ∷ []

abbrev pub encrypt_steps : Bool → List JobStep
encrypt_steps true = encrypting ∷ enc_dir ∷ enc_rename ∷ []
encrypt_steps false = []

abbrev pub steps_of : Bool → Shape → List JobStep
steps_of encrypt shape =
    stat_source
    ∷ (source_steps shape
        ++ (stage_dir
            ∷ stage_copy
            ∷ (encrypt_steps encrypt ++ (upload ∷ nzb ∷ output_dir ∷ write_nzb ∷ []))))

-- The run fails: the job has no group, its group cannot be loaded or has no newsgroup, or a call
-- that the run needs fails.
abbrev pub fails_for : Surroundings → OfflineJob → List Bytes → Bool
fails_for env job [] = true
fails_for env job (_ ∷ _) =
    any env.breaks (steps_of env.cfg.encrypt (shape_of job.source_path env.is_dir))

abbrev pub fails_in : Surroundings → OfflineJob → Option ℕ → Option Group → Bool
fails_in env job none g = true
fails_in env job (some id) none = true
fails_in env job (some id) (some g) = fails_for env job g.newsgroups

abbrev pub run_fails : Surroundings → OfflineJob → Bool
run_fails env job = fails_in env job job.group_id env.group

-- The state in which a run leaves its job.
abbrev pub status_after : Bool → Status
status_after failing = if failing then failed else completed

calls_of : List Action → List JobStep
calls_of [] = []
calls_of (phase p ∷ actions) = calls_of actions
calls_of (call s ∷ actions) = s ∷ calls_of actions

calls_of-actions_in : (b : Bool) (shape : Shape) → calls_of (actions_in b shape) ≡ steps_of b shape
unfolding calls_of
calls_of-actions_in true torrent = refl
calls_of-actions_in true directory = refl
calls_of-actions_in true single_file = refl
calls_of-actions_in false torrent = refl
calls_of-actions_in false directory = refl
calls_of-actions_in false single_file = refl

done_or-status :
    (breaks : JobStep → Bool) (loses : Bytes → Bool) (id : ℕ) (path password : Bytes)
    (actions : List Action) (t : Table)
    → end_status (done_or path password (act breaks loses id actions t)).0
      ≡ status_after (any breaks (calls_of actions))
unfolding act calls_of
done_or-status breaks loses id path password [] t = refl
done_or-status breaks loses id path password (phase p ∷ actions) t =
    done_or-status breaks loses id path password actions
      (if loses p then t else update_job_phase id p 0 t)
done_or-status breaks loses id path password (call s ∷ actions) t = elim (Bool-cases (breaks s)) [
  | inl broke ↦ rw broke refl
  | inr fine ↦ rw fine (done_or-status breaks loses id path password actions t)
]

module _ (env : Surroundings) (job : OfflineJob) (t : Table) where
  process_for-status :
      (g : Group) (names : List Bytes)
      → end_status (process_for env job t g names).0 ≡ status_after (fails_for env job names)
  unfolding actions_of job_config
  process_for-status g [] = refl
  process_for-status g (n ∷ names) =
      done_or-status env.breaks env.loses job.id _ _ _ t
      ∙ ap (λ steps. status_after (any env.breaks steps))
          (calls_of-actions_in env.cfg.encrypt (shape_of job.source_path env.is_dir))

  process_in-status :
      (id : ℕ) (o : Option Group)
      → end_status (process_in env job t o).0 ≡ status_after (fails_in env job (some id) o)
  process_in-status id none = refl
  process_in-status id (some g) = process_for-status g g.newsgroups

  process_with-status :
      (o : Option ℕ)
      → end_status (process_with env job t o).0 ≡ status_after (fails_in env job o env.group)
  process_with-status none = refl
  process_with-status (some id) = process_in-status id env.group

finish-status :
    (env : Surroundings) (id : ℕ) (p : Processed × Table) (k : ℕ)
    → queue_of (finish env id p) k ≡ (
        if env.saves && (id == k)
        then replaced (end_status p.0) (queue_of p.1 k)
        else queue_of p.1 k)
unfolding mark_job_completed mark_job_failed
finish-status env id (done path password, t) k = elim (Bool-cases env.saves) [
  | inl saved ↦ rw saved (status-set id _ completed t.rows k (λ r. refl) (λ r. refl))
  | inr lost ↦ rw lost refl
]
finish-status env id (broken s, t) k = elim (Bool-cases env.saves) [
  | inl saved ↦ rw saved (status-set id _ failed t.rows k (λ r. refl) (λ r. refl))
  | inr lost ↦ rw lost refl
]

finish-Reach :
    (env : Surroundings) (id : ℕ) (p : Processed × Table) → Reach p.1 → Reach (finish env id p)
finish-Reach env id (done path password, t) r =
    if_both env.saves Reach _ _ (next t _ r (completes env.now id path password)) r
finish-Reach env id (broken s, t) r =
    if_both env.saves Reach _ _ (next t _ r (fails env.now id (env.message s))) r

-- From a table that can be reached, a run brings the queue to one that can be reached. If the update
-- of the row at the end works, the job is then failed if it has no group, its group is not found or
-- has no newsgroup, or a call that a source of its shape needs fails, and completed otherwise; if
-- that update fails, it is in the state that it was in, as all other jobs are in any case.
pub run_one_offline_job_lem :
    (env : Surroundings) (job : OfflineJob) (t : Table) (k : ℕ)
    → Reach t
    → Reach (run_one_offline_job env job t)
      × (queue_of (run_one_offline_job env job t) k ≡ (
          if env.saves && (job.id == k)
          then replaced (status_after (run_fails env job)) (queue_of t k)
          else queue_of t k))
unfolding run_one_offline_job process_offline_job
run_one_offline_job_lem env job t k r =
    let p = process_offline_job env job t in
    let q = process_with-Quiet env job t job.group_id in
    (
      finish-Reach env job.id p (q.reached r),
      finish-status env job.id p k
          ∙ (ap (λ o. if env.saves && (job.id == k) then replaced (end_status p.0) o else o)
                (q.same k)
              ∙ ap
                  (λ st.
                    if env.saves && (job.id == k) then replaced st (queue_of t k) else queue_of t k)
                  (process_with-status env job t job.group_id)),
    )
