-- ===== src/Storage/Offline/Reach.antt =====
-- storage/jobs.go: the tables that the watcher, the processor and the operator can bring about.
use loon_agent.Prelude.{
  ℕ, suc, ◌≡◌, refl, sym, ap, ◌∙◌, inl, inr, Bool, true, false, ◌||◌, not, Option, none, some, List,
  [], ◌∷◌, any, all, ltb, arith, Bytes, Bool-cases, none_ne_some,
}
use loon_agent.Storage.Offline.{
  OfflineJob, Draft, Table, is_queued, is_processing, has_id, has_path, row_of, updated, start,
  requeue, create_offline_job, claim_next_job, update_job_phase, mark_job_completed,
  mark_job_failed, reset_queued_job, requeue_stuck_jobs, delete_job, found_or,
}
use loon_agent.Storage.Offline.Rows.{
  IsWellFormed, is_tidy, updated-IsWellFormed, filter-IsWellFormed, all-has_id,
}
use loon_agent.Storage.Offline.Claim.{oldest_queued-cases}

-- One statement of the watcher, which never sets the status of a job, of the processor, or of the
-- operator's page. The statements of several connections interleave as any sequence of steps.
pub data Step (t : Table) : Table → Type 0 where
  creates :
      (now : ℕ) (j : Draft) (id : ℕ) (u : Table)
      → j.status ≡ none
      → create_offline_job now j t ≡ some (id, u)
      → Step t u
  claims : (now : ℕ) → Step t (claim_next_job now t).1
  phases : (id : ℕ) (phase : Bytes) (progress : ℕ) → Step t (update_job_phase id phase progress t)
  completes :
      (now id : ℕ) (nzb_path password : Bytes)
      → Step t (mark_job_completed now id nzb_path password t)
  fails : (now id : ℕ) (message : Bytes) → Step t (mark_job_failed now id message t)
  resets : (id : ℕ) (u : Table) → reset_queued_job id t ≡ some u → Step t u
  restarts : Step t (requeue_stuck_jobs t).1
  deletes : (id : ℕ) (u : Table) → delete_job id t ≡ some u → Step t u

pub data Reach : Table → Type 0 where
  fresh : Reach (record { rows = []; next_id = 1 })
  next : (t u : Table) → Reach t → Step t u → Reach u

always : OfflineJob → Bool
always r = true

all-always : (rs : List OfflineJob) → all always rs ≡ true
unfolding always
all-always [] = refl
all-always (r ∷ rs) = all-always rs

pub found_or-some : (b : Bool) (t u : Table) → found_or b t ≡ some u → t ≡ u
found_or-some true t u h = cc
found_or-some false t u h = cc

below-none :
    (n : ℕ) (rs : List OfflineJob) → all (λ r. ltb r.id n) rs ≡ true → any (has_id n) rs ≡ false
below-none n [] h = refl
below-none n (r ∷ rs) h = ground (arith, below-none n rs)

below-suc :
    (n : ℕ) (rs : List OfflineJob)
    → all (λ r. ltb r.id n) rs ≡ true
    → all (λ r. ltb r.id (suc n)) rs ≡ true
below-suc n [] h = refl
below-suc n (r ∷ rs) h = ground (arith, below-suc n rs)

table_of : Table → Option (ℕ × Table) → Table
table_of t none = t
table_of t (some (_, u)) = u

second_of :
    (a b : ℕ) (t u : Table) → ◌≡◌ {A = Option (ℕ × Table)} (some (a, t)) (some (b, u)) → u ≡ t
unfolding table_of
second_of a b t u h = sym (ap (table_of t) h)

pub create-fresh :
    (now : ℕ) (j : Draft) (id : ℕ) (t u : Table)
    → create_offline_job now j t ≡ some (id, u)
    → (any (has_path j.source_path) t.rows ≡ false)
      × (u ≡ record { rows = row_of now t.next_id j ∷ t.rows; next_id = suc t.next_id })
unfolding create_offline_job
create-fresh now j id t u h = elim (Bool-cases (any (has_path j.source_path) t.rows)) [
  | inl twice ↦ absurd (none_ne_some (sym (rw twice refl) ∙ h))
  | inr fresh_path ↦ (fresh_path, second_of t.next_id id _ u (sym (rw fresh_path refl) ∙ h))
]

row_of-is_tidy : (now id : ℕ) (j : Draft) → j.status ≡ none → is_tidy (row_of now id j) ≡ true
row_of-is_tidy now id j h = rw h refl

create-IsWellFormed :
    (now : ℕ) (j : Draft) (id : ℕ) (t u : Table)
    → j.status ≡ none
    → create_offline_job now j t ≡ some (id, u)
    → IsWellFormed t
    → IsWellFormed u
create-IsWellFormed now j id t u s h w =
    let (f, e) = create-fresh now j id t u h in
    rw e (record {
      distinct = rw (below-none t.next_id t.rows w.below) (rw f w.distinct);
      below = ground (arith, below-suc t.next_id t.rows w.below);
      tidy = rw (row_of-is_tidy now t.next_id j s) w.tidy;
    })

start-is_tidy :
    (now : ℕ) (q r : OfflineJob)
    → has_id q.id r ≡ true
    → not (has_id q.id r) || is_queued r.status ≡ true
    → is_tidy r ≡ true
    → is_tidy (start now r) ≡ true
start-is_tidy now q r same waits tidy = ground arith

claim-IsWellFormed : (now : ℕ) (t : Table) → IsWellFormed t → IsWellFormed (claim_next_job now t).1
unfolding claim_next_job
claim-IsWellFormed now t w = elim (oldest_queued-cases t.rows) [
  | inl (e, _) ↦ rw e w
  | inr (q, (e, o)) ↦ rw e (
      updated-IsWellFormed (has_id q.id) (start now)
        (λ r. not (has_id q.id r) || is_queued r.status) t (λ r. refl) (λ r. refl)
        (start-is_tidy now q)
        (all-has_id (λ r. is_queued r.status) q t.rows w.distinct o.stored o.waits) w)
]

requeue-is_tidy :
    (r : OfflineJob) → is_processing r.status ≡ true → is_tidy r ≡ true → is_tidy (requeue r) ≡ true
requeue-is_tidy r works tidy = ground arith

phase-is_tidy :
    (phase : Bytes) (progress : ℕ) (r : OfflineJob)
    → is_tidy r ≡ true
    → is_tidy (record r { phase = phase; progress = progress }) ≡ true
phase-is_tidy phase progress r h = h

-- A statement that makes every row that it changes tidy, whatever it was.
simple-IsWellFormed :
    (s : OfflineJob → Bool) (f : OfflineJob → OfflineJob) (t : Table)
    → ((r : OfflineJob) → (f r).id ≡ r.id)
    → ((r : OfflineJob) → (f r).source_path ≡ r.source_path)
    → ((r : OfflineJob) → s r ≡ true → is_tidy r ≡ true → is_tidy (f r) ≡ true)
    → IsWellFormed t
    → IsWellFormed (updated s f t)
simple-IsWellFormed s f t ki kp k w =
    updated-IsWellFormed s f always t ki kp (λ r hs _ h. k r hs h) (all-always t.rows) w

Step-IsWellFormed : (t u : Table) → Step t u → IsWellFormed t → IsWellFormed u
unfolding update_job_phase mark_job_completed mark_job_failed reset_queued_job requeue_stuck_jobs
    delete_job
Step-IsWellFormed t _ (creates now j id u s e) w = create-IsWellFormed now j id t u s e w
Step-IsWellFormed t _ (claims now) w = claim-IsWellFormed now t w
Step-IsWellFormed t _ (phases id phase progress) w =
    simple-IsWellFormed (has_id id) _ t (λ r. refl) (λ r. refl)
      (λ r _ h. phase-is_tidy phase progress r h) w
Step-IsWellFormed t _ (completes now id nzb_path password) w =
    simple-IsWellFormed (has_id id) _ t (λ r. refl) (λ r. refl) (λ r _ h. refl) w
Step-IsWellFormed t _ (fails now id message) w =
    simple-IsWellFormed (has_id id) _ t (λ r. refl) (λ r. refl) (λ r _ h. refl) w
Step-IsWellFormed t _ (resets id u e) w =
    rw (sym (found_or-some (any (has_id id) t.rows) _ u e))
      (simple-IsWellFormed (has_id id) _ t (λ r. refl) (λ r. refl) (λ r _ h. refl) w)
Step-IsWellFormed t _ restarts w =
    simple-IsWellFormed (λ r. is_processing r.status) requeue t (λ r. refl) (λ r. refl)
      requeue-is_tidy w
Step-IsWellFormed t _ (deletes id u e) w =
    rw (sym (found_or-some (any (has_id id) t.rows) _ u e))
      (filter-IsWellFormed (λ r. not (has_id id r)) t w)

-- In every table that can be reached, no two rows have the same id or the same source path, ids
-- are below the next one, and each row is tidy: one that waits keeps no start, error, NZB or end,
-- one in work has a start and no error, NZB or end, one that is completed has its NZB and an end,
-- and one that has failed has its error and an end.
pub Reach-IsWellFormed : (t : Table) → Reach t → IsWellFormed t
Reach-IsWellFormed _ fresh = record { distinct = refl; below = refl; tidy = refl }
Reach-IsWellFormed u (next t _ before step) =
    Step-IsWellFormed t u step (Reach-IsWellFormed t before)
