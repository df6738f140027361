-- ===== src/Storage/Offline/Refine.antt =====
-- storage/jobs.go: what the statements do to the map of the jobs' states.
use loon_agent.Prelude.{
  ℕ, ◌≡◌, ◌⊎◌, refl, sym, ap, ◌∙◌, inl, inr, true, not, Option, none, some, List, [], ◌∷◌, any, all,
  filter, ltb, ◌==◌, ==_iff, if◌then◌else◌, arith, Bool-cases,
}
use mathlib.Core.List.{Memᴰ}
use loon_agent.Storage.Offline.{
  OfflineJob, Table, Status, queued, processing, completed, failed, cancelled, is_queued,
  is_processing, has_id, update_where, start, requeue, claim_next_job, update_job_phase,
  mark_job_completed, mark_job_failed, reset_queued_job, requeue_stuck_jobs, delete_job,
}
use loon_agent.Storage.Offline.Rows.{IsWellFormed, are_distinct}
use loon_agent.Storage.Offline.Reach.{
  Step, creates, claims, phases, completes, fails, resets, restarts, deletes, create-fresh,
  found_or-some,
}
use loon_agent.Storage.Offline.Claim.{oldest_queued-cases}

-- The abstract queue: which ids there are, and the state of each.
abbrev pub Queue : Type 0
Queue = ℕ → Option Status

abbrev pub status_in : List OfflineJob → Queue
status_in [] k = none
status_in (r ∷ rs) k = if r.id == k then some r.status else status_in rs k

abbrev pub queue_of : Table → Queue
queue_of t = status_in t.rows

-- A state is put in place of the one of an id, if there is one.
abbrev pub replaced : Status → Option Status → Option Status
replaced st none = none
replaced st (some _) = some st

abbrev pub released : Option Status → Option Status
released none = none
released (some st) = some (if is_processing st then queued else st)

-- The moves of the abstract queue. Only a waiting job is started, a new job has a new id and waits,
-- a restart gives back what was being worked on, and nothing else changes several jobs.
pub data Move (m n : Queue) : Type 0 where
  adds :
      (id : ℕ) → m id ≡ none → ((k : ℕ) → n k ≡ (if id == k then some queued else m k)) → Move m n
  starts :
      (id : ℕ)
      → m id ≡ some queued
      → ((k : ℕ) → n k ≡ (if id == k then some processing else m k))
      → Move m n
  ends :
      (id : ℕ) (st : Status)
      → (st ≡ completed) ⊎ (st ≡ failed)
      → ((k : ℕ) → n k ≡ (if id == k then replaced st (m k) else m k))
      → Move m n
  retries : (id : ℕ) → ((k : ℕ) → n k ≡ (if id == k then replaced queued (m k) else m k)) → Move m n
  releases : ((k : ℕ) → n k ≡ released (m k)) → Move m n
  drops : (id : ℕ) → ((k : ℕ) → n k ≡ (if id == k then none else m k)) → Move m n
  stays : ((k : ℕ) → n k ≡ m k) → Move m n

module _ (id : ℕ) (f : OfflineJob → OfflineJob) (st : Status) where
  pub status-set :
      (rs : List OfflineJob) (k : ℕ)
      → ((r : OfflineJob) → (f r).id ≡ r.id)
      → ((r : OfflineJob) → (f r).status ≡ st)
      → status_in (update_where (has_id id) f rs) k
        ≡ (if id == k then replaced st (status_in rs k) else status_in rs k)
  status-set [] k ki ks = ground arith
  status-set (r ∷ rs) k ki ks =
      ground (arith, status-set rs k ki ks, ki r, ks r, ==_iff r.id id, ==_iff r.id k, ==_iff id k)

pub status-phase :
    (id : ℕ) (f : OfflineJob → OfflineJob) (rs : List OfflineJob) (k : ℕ)
    → ((r : OfflineJob) → (f r).id ≡ r.id)
    → ((r : OfflineJob) → (f r).status ≡ r.status)
    → status_in (update_where (has_id id) f rs) k ≡ status_in rs k
status-phase id f [] k ki ks = refl
status-phase id f (r ∷ rs) k ki ks =
    ground (arith, status-phase id f rs k ki ks, ki r, ks r, ==_iff r.id id, ==_iff r.id k)

status-requeue :
    (rs : List OfflineJob) (k : ℕ)
    → status_in (update_where (λ r. is_processing r.status) requeue rs) k
      ≡ released (status_in rs k)
status-requeue [] k = refl
status-requeue (r ∷ rs) k = elim (Bool-cases (is_processing r.status)) [
  | inl works ↦ ground (arith, status-requeue rs k)
  | inr other ↦ ground (arith, status-requeue rs k)
]

status-filter :
    (id : ℕ) (rs : List OfflineJob) (k : ℕ)
    → status_in (filter (λ r. not (has_id id r)) rs) k ≡ (if id == k then none else status_in rs k)
status-filter id [] k = ground arith
status-filter id (r ∷ rs) k =
    ground (arith, status-filter id rs k, ==_iff r.id id, ==_iff r.id k, ==_iff id k)

status-fresh :
    (n : ℕ) (rs : List OfflineJob) → all (λ r. ltb r.id n) rs ≡ true → status_in rs n ≡ none
status-fresh n [] h = refl
status-fresh n (r ∷ rs) h = ground (arith, status-fresh n rs, ==_iff r.id n)

any-mem_id : (q : OfflineJob) (rs : List OfflineJob) → Memᴰ q rs → any (has_id q.id) rs ≡ true
any-mem_id q [] m = elim m [ ]
any-mem_id q (r ∷ rs) (Memᴰ.head e) = ground (arith, ap OfflineJob.id e, ==_iff r.id q.id)
any-mem_id q (r ∷ rs) (Memᴰ.tail m) = ground (arith, any-mem_id q rs m)

distinct_tail :
    (r : OfflineJob) (rs : List OfflineJob) → are_distinct (r ∷ rs) ≡ true → are_distinct rs ≡ true
distinct_tail r rs d = ground arith

status-mem :
    (q : OfflineJob) (rs : List OfflineJob)
    → Memᴰ q rs
    → are_distinct rs ≡ true
    → status_in rs q.id ≡ some q.status
status-mem q [] m d = elim m [ ]
status-mem q (r ∷ rs) (Memᴰ.head e) d =
    ground (arith, ap OfflineJob.id e, ap OfflineJob.status e, ==_iff r.id q.id)
status-mem q (r ∷ rs) (Memᴰ.tail m) d = elim (Bool-cases (r.id == q.id)) [
  | inl same ↦
      let again : (any (has_id r.id) rs ≡ true) =
        ap (λ i. any (has_id i) rs) ((==_iff r.id q.id).0 same) ∙ any-mem_id q rs m in
      absurd (ground arith)
  | inr other ↦ rw other (status-mem q rs m (distinct_tail r rs d))
]

replace_queued :
    (id k : ℕ) (m : Queue)
    → m id ≡ some queued
    → (if id == k then replaced processing (m k) else m k)
      ≡ (if id == k then some processing else m k)
replace_queued id k m h = elim (Bool-cases (id == k)) [
  | inl same ↦ rw same (ap (replaced processing) (ap m (sym ((==_iff id k).0 same)) ∙ h))
  | inr other ↦ rw other refl
]

queued_eq : (st : Status) → is_queued st ≡ true → st ≡ queued
queued_eq queued h = refl
queued_eq processing h = cc
queued_eq completed h = cc
queued_eq failed h = cc
queued_eq cancelled h = cc

claim-Move :
    (now : ℕ) (t : Table) → IsWellFormed t → Move (queue_of t) (queue_of (claim_next_job now t).1)
unfolding claim_next_job
claim-Move now t w = elim (oldest_queued-cases t.rows) [
  | inl (e, _) ↦ rw e (Move.stays (λ k. refl))
  | inr (q, (e, o)) ↦ rw e (
      let waits : (queue_of t q.id ≡ some queued) =
        status-mem q t.rows o.stored w.distinct ∙ ap some (queued_eq q.status o.waits) in
      Move.starts q.id waits (λ k.
        status-set q.id (start now) processing t.rows k (λ r. refl) (λ r. refl)
        ∙ replace_queued q.id k (queue_of t) waits))
]

-- Every statement on a well-formed table, of the watcher, the processor or the operator, is a move
-- of the abstract queue: it adds a waiting job under a new id, starts a job that waits, ends a job,
-- has a job wait again, gives back all that was being worked on, drops a job, or changes no state.
pub Step-Move : (t u : Table) → Step t u → IsWellFormed t → Move (queue_of t) (queue_of u)
unfolding update_job_phase mark_job_completed mark_job_failed reset_queued_job requeue_stuck_jobs
    delete_job
Step-Move t _ (creates now j id u s e) w =
    let (f, eu) = create-fresh now j id t u e in
    Move.adds t.next_id (status-fresh t.next_id t.rows w.below)
      (λ k. ap (λ x. queue_of x k) eu ∙ rw s refl)
Step-Move t _ (claims now) w = claim-Move now t w
Step-Move t _ (phases id phase progress) w =
    Move.stays (λ k. status-phase id _ t.rows k (λ r. refl) (λ r. refl))
Step-Move t _ (completes now id nzb_path password) w =
    Move.ends id completed (inl refl)
      (λ k. status-set id _ completed t.rows k (λ r. refl) (λ r. refl))
Step-Move t _ (fails now id message) w =
    Move.ends id failed (inr refl) (λ k. status-set id _ failed t.rows k (λ r. refl) (λ r. refl))
Step-Move t _ (resets id u e) w = Move.retries id (λ k.
    ap (λ x. queue_of x k) (sym (found_or-some (any (has_id id) t.rows) _ u e))
    ∙ status-set id _ queued t.rows k (λ r. refl) (λ r. refl))
Step-Move t _ restarts w = Move.releases (λ k. status-requeue t.rows k)
Step-Move t _ (deletes id u e) w = Move.drops id (λ k.
    ap (λ x. queue_of x k) (sym (found_or-some (any (has_id id) t.rows) _ u e))
    ∙ status-filter id t.rows k)
