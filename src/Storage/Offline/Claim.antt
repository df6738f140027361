-- ===== src/Storage/Offline/Claim.antt =====
-- storage/jobs.go: ClaimNextJob and RequeueStuckJobs.
use loon_agent.Prelude.{
  ℕ, ◌+◌, ◌≤◌, ◌≡◌, ◌⊎◌, refl, sym, ap, ◌∙◌, inl, inr, Bool, true, false, ◌||◌, not, Option, none,
  some, List, [], ◌∷◌, map, any, all, filter, length, ltb, leb, ==_iff, if◌then◌else◌, arith,
  Bool-cases,
}
use mathlib.Core.List.{Memᴰ}
use loon_agent.Storage.Offline.{
  OfflineJob, Table, Status, queued, processing, completed, failed, cancelled, is_queued,
  is_processing, has_id, update_where, updated, oldest_queued, is_later, latest_started, start,
  nothing, job, claim_next_job, requeue, requeue_stuck_jobs,
}
use loon_agent.Storage.Offline.Rows.{IsWellFormed, are_distinct, twice}

-- The oldest of the queued rows.
pub record IsOldest (q : OfflineJob) (rs : List OfflineJob) : Type 0 where
  pub stored : Memᴰ q rs
  pub waits : is_queued q.status ≡ true
  pub first : all (λ r. not (is_queued r.status) || leb q.created_at r.created_at) rs ≡ true

none_queued_first :
    (n : ℕ) (rs : List OfflineJob)
    → any (λ r. is_queued r.status) rs ≡ false
    → all (λ r. not (is_queued r.status) || leb n r.created_at) rs ≡ true
none_queued_first n [] h = refl
none_queued_first n (r ∷ rs) h = ground (arith, none_queued_first n rs)

earlier_first :
    (m n : ℕ) (rs : List OfflineJob)
    → n ≤ m
    → all (λ r. not (is_queued r.status) || leb m r.created_at) rs ≡ true
    → all (λ r. not (is_queued r.status) || leb n r.created_at) rs ≡ true
earlier_first m n [] le h = refl
earlier_first m n (r ∷ rs) le h = ground (arith, earlier_first m n rs le)

after_other :
    (q r : OfflineJob) (rs : List OfflineJob)
    → is_queued r.status ≡ false
    → IsOldest q rs
    → IsOldest q (r ∷ rs)
after_other q r rs h o = record {
  stored = Memᴰ.tail o.stored;
  waits = o.waits;
  first = rw h o.first;
}

-- Either no row is queued, and none is found, or the oldest of the queued rows is found.
pub oldest_queued-cases :
    (rs : List OfflineJob)
    → ((oldest_queued rs ≡ none) × (any (λ r. is_queued r.status) rs ≡ false))
      ⊎ ((q : OfflineJob) × ((oldest_queued rs ≡ some q) × IsOldest q rs))
unfolding oldest_queued
oldest_queued-cases [] = inl (refl, refl)
oldest_queued-cases (r ∷ rs) = elim (Bool-cases (is_queued r.status)) [
  | inl queues ↦ (elim (oldest_queued-cases rs) [
    | inl (e, nothing_waits) ↦ inr (
      r,
      (
        rw queues (rw e refl),
        record {
          stored = Memᴰ.head refl;
          waits = queues;
          first = ground (arith, none_queued_first r.created_at rs nothing_waits);
        },
      ),
    )
    | inr (q, (e, o)) ↦ (elim (Bool-cases (ltb r.created_at q.created_at)) [
      | inl before ↦ inr (
        r,
        (
          rw queues (rw e (rw before refl)),
          record {
            stored = Memᴰ.head refl;
            waits = queues;
            first =
                ground (arith, earlier_first q.created_at r.created_at rs (ground arith) o.first);
          },
        ),
      )
      | inr not_before ↦ inr (
        q,
        (
          rw queues (rw e (rw not_before refl)),
          record { stored = Memᴰ.tail o.stored; waits = o.waits; first = ground (arith, o.first) },
        ),
      )
    ])
  ])
  | inr other ↦ (elim (oldest_queued-cases rs) [
    | inl (e, nothing_waits) ↦ inl (rw other e, rw other nothing_waits)
    | inr (q, (e, o)) ↦ inr (q, (rw other e, after_other q r rs other o))
  ])
]

abbrev pub is_before : ℕ → Option ℕ → Bool
is_before now none = true
is_before now (some t) = ltb t now

-- Every row in work was started before `now`.
abbrev pub all_started_before : ℕ → List OfflineJob → Bool
all_started_before now = all (λ r. not (is_processing r.status) || is_before now r.started_at)

update_where-none :
    (p : OfflineJob → Bool) (f : OfflineJob → OfflineJob) (rs : List OfflineJob)
    → any p rs ≡ false
    → update_where p f rs ≡ rs
update_where-none p f [] h = refl
update_where-none p f (r ∷ rs) h =
    let e : p r ≡ false = ground arith in
    rw e (ap (λ x. r ∷ x) (update_where-none p f rs (ground arith)))

latest_started-before :
    (now : ℕ) (rs : List OfflineJob)
    → all_started_before now rs ≡ true
    → (latest_started rs ≡ none)
      ⊎ ((q : OfflineJob) × ((latest_started rs ≡ some q) × (is_before now q.started_at ≡ true)))
unfolding latest_started
latest_started-before now [] h = inl refl
latest_started-before now (r ∷ rs) h = elim (Bool-cases (is_processing r.status)) [
  | inl works ↦
      let b : is_before now r.started_at ≡ true = ground arith in
      (elim (latest_started-before now rs (ground arith)) [
        | inl e ↦ inr (r, (rw works (rw e refl), b))
        | inr (q, (e, bq)) ↦ (elim (Bool-cases (is_later r.started_at q.started_at)) [
          | inl after ↦ inr (r, (rw works (rw e (rw after refl)), b))
          | inr not_after ↦ inr (q, (rw works (rw e (rw not_after refl)), bq))
        ])
      ])
  | inr other ↦ (elim (latest_started-before now rs (ground arith)) [
    | inl e ↦ inl (rw other e)
    | inr (q, (e, bq)) ↦ inr (q, (rw other e, bq))
  ])
]

is_later-now : (now : ℕ) (o : Option ℕ) → is_before now o ≡ true → is_later (some now) o ≡ true
is_later-now now none h = refl
is_later-now now (some t) h = h

is_later-before : (now : ℕ) (o : Option ℕ) → is_before now o ≡ true → is_later o (some now) ≡ false
is_later-before now none h = refl
is_later-before now (some t) h = ground arith

latest_started-start :
    (now : ℕ) (r : OfflineJob) (rs : List OfflineJob)
    → all_started_before now rs ≡ true
    → latest_started (start now r ∷ rs) ≡ some (start now r)
unfolding latest_started
latest_started-start now r rs h = elim (latest_started-before now rs h) [
  | inl e ↦ rw e refl
  | inr (q, (e, b)) ↦ rw e (rw (is_later-now now q.started_at b) refl)
]

latest_started-after :
    (now : ℕ) (r q : OfflineJob) (rs : List OfflineJob)
    → not (is_processing r.status) || is_before now r.started_at ≡ true
    → latest_started rs ≡ some (start now q)
    → latest_started (r ∷ rs) ≡ some (start now q)
unfolding latest_started
latest_started-after now r q rs h e = elim (Bool-cases (is_processing r.status)) [
  | inl works ↦ rw works (rw e (rw (is_later-before now r.started_at (ground arith)) refl))
  | inr other ↦ rw other e
]

-- The row that was claimed is read back, unless another row in work has a later start.
latest_started-claimed :
    (now : ℕ) (q : OfflineJob) (rs : List OfflineJob)
    → are_distinct rs ≡ true
    → all_started_before now rs ≡ true
    → Memᴰ q rs
    → latest_started (update_where (has_id q.id) (start now) rs) ≡ some (start now q)
latest_started-claimed now q [] d h m = elim m [ ]
latest_started-claimed now q (r ∷ rs) d h (Memᴰ.head e) =
    ap (λ x. latest_started (update_where (has_id x.id) (start now) (r ∷ rs))) e
    ∙ (rw ((==_iff r.id r.id).1 refl) (
          rw (update_where-none (has_id r.id) (start now) rs (ground arith))
            (latest_started-start now r rs (ground arith)))
        ∙ ap (λ x. some (start now x)) (sym e))
latest_started-claimed now q (r ∷ rs) d h (Memᴰ.tail m) =
    let rest = latest_started-claimed now q rs (ground arith) (ground arith) m in
    elim (Bool-cases (has_id q.id r)) [
      | inl hit ↦ absurd (twice r q rs d m hit)
      | inr miss ↦ rw miss (
          latest_started-after now r q (update_where (has_id q.id) (start now) rs) (ground arith)
            rest)
    ]

-- In a well-formed table whose rows in work were all started before `now`, ClaimNextJob returns
-- no job exactly if none is queued, and then changes nothing; otherwise it returns the oldest
-- queued row, started, and that row alone is changed.
pub claim_next_job_lem :
    (now : ℕ) (t : Table)
    → IsWellFormed t
    → all_started_before now t.rows ≡ true
    → ((claim_next_job now t ≡ (nothing, t)) × (any (λ r. is_queued r.status) t.rows ≡ false))
      ⊎ ((q : OfflineJob) × (IsOldest q t.rows
            × (claim_next_job now t ≡ (job (start now q), updated (has_id q.id) (start now) t))))
unfolding claim_next_job
claim_next_job_lem now t w h = elim (oldest_queued-cases t.rows) [
  | inl (e, nothing_waits) ↦ inl (rw e refl, nothing_waits)
  | inr (q, (e, o)) ↦
      inr (q, (o, rw e (rw (latest_started-claimed now q t.rows w.distinct h o.stored) refl)))
]

abbrev requeue_all : List OfflineJob → List OfflineJob
requeue_all = update_where (λ r. is_processing r.status) requeue

none_works : (rs : List OfflineJob) → any (λ r. is_processing r.status) (requeue_all rs) ≡ false
none_works [] = refl
none_works (r ∷ rs) = elim (Bool-cases (is_processing r.status)) [
  | inl hit ↦ rw hit (none_works rs)
  | inr miss ↦ rw miss (rw (miss, none_works rs) refl)
]

processing-not_queued : (s : Status) → is_processing s ≡ true → is_queued s ≡ false
processing-not_queued processing h = refl
processing-not_queued queued h = sym h
processing-not_queued completed h = refl
processing-not_queued failed h = refl
processing-not_queued cancelled h = refl

more_queued :
    (rs : List OfflineJob)
    → length (filter (λ r. is_processing r.status) rs)
        + length (filter (λ r. is_queued r.status) rs)
      ≡ length (filter (λ r. is_queued r.status) (requeue_all rs))
more_queued [] = refl
more_queued (r ∷ rs) = elim (Bool-cases (is_processing r.status)) [
  | inl hit ↦ rw (hit, processing-not_queued r.status hit) (omega (arith, more_queued rs))
  | inr miss ↦ (elim (Bool-cases (is_queued r.status)) [
    | inl waits ↦ rw miss (rw waits (omega (arith, more_queued rs)))
    | inr other ↦ rw miss (rw other (more_queued rs))
  ])
]

-- What RequeueStuckJobs does to a row.
abbrev pub requeued : OfflineJob → OfflineJob
requeued r = if is_processing r.status then requeue r else r

all_requeued : (rs : List OfflineJob) → requeue_all rs ≡ map requeued rs
all_requeued [] = refl
all_requeued (r ∷ rs) = ap (λ x. requeued r ∷ x) (all_requeued rs)

-- RequeueStuckJobs leaves no row in work: those that were are queued again without a start, all
-- other rows stay as they are, and it returns how many they were.
pub requeue_stuck_jobs_lem :
    (t : Table)
    → ((requeue_stuck_jobs t).1.rows ≡ map requeued t.rows)
      × ((any (λ r. is_processing r.status) (requeue_stuck_jobs t).1.rows ≡ false)
          × ((requeue_stuck_jobs t).0 + length (filter (λ r. is_queued r.status) t.rows)
              ≡ length (filter (λ r. is_queued r.status) (requeue_stuck_jobs t).1.rows)))
unfolding requeue_stuck_jobs
requeue_stuck_jobs_lem t = (all_requeued t.rows, (none_works t.rows, more_queued t.rows))
