-- ===== src/Storage/Offline/Report.antt =====
-- storage/jobs.go: what the UI reads, CountJobsByStatus and ListOfflineJobs.
use loon_agent.Prelude.{
  ℕ, zero, suc, ◌+◌, ◌≡◌, refl, Bool, true, false, List, [], ◌∷◌, filter, length, leb, le_signed,
  if◌then◌else◌, arith, inl, inr, Bool-cases,
}
use Prim.Native.Nat.{min}
use loon_agent.Storage.Offline.{
  OfflineJob, Table, Status, queued, processing, completed, failed, cancelled,
}

abbrev pub same_status : Status → Status → Bool
same_status queued queued = true
same_status processing processing = true
same_status completed completed = true
same_status failed failed = true
same_status cancelled cancelled = true
same_status _ _ = false

-- The lookups of the map that CountJobsByStatus returns; a status without rows has no entry, and
-- reads as 0.
unfoldable pub count_jobs_by_status : Table → Status → ℕ
count_jobs_by_status t s = length (filter (λ r. same_status r.status s) t.rows)

-- ORDER BY created_at DESC
unfoldable pub insert_newest : OfflineJob → List OfflineJob → List OfflineJob
insert_newest r [] = r ∷ []
insert_newest r (q ∷ qs) =
    let rest = insert_newest r qs in if leb q.created_at r.created_at then r ∷ q ∷ qs else q ∷ rest

unfoldable pub newest_first : List OfflineJob → List OfflineJob
newest_first [] = []
newest_first (r ∷ rs) = insert_newest r (newest_first rs)

abbrev pub limited : ℕ → List OfflineJob → List OfflineJob
limited zero rs = []
limited (suc n) [] = []
limited (suc n) (r ∷ rs) = r ∷ limited n rs

-- ListOfflineJobs; `limit` is an int64.
unfoldable pub list_offline_jobs : ℕ → Table → List OfflineJob
unfolding newest_first
list_offline_jobs limit t =
    if le_signed limit 0
    then limited 100 (newest_first t.rows)
    else limited limit (newest_first t.rows)

all_counted :
    (rs : List OfflineJob)
    → length (filter (λ r. same_status r.status queued) rs)
        + length (filter (λ r. same_status r.status processing) rs)
        + length (filter (λ r. same_status r.status completed) rs)
        + length (filter (λ r. same_status r.status failed) rs)
        + length (filter (λ r. same_status r.status cancelled) rs)
      ≡ length rs
all_counted [] = refl
all_counted (r ∷ rs) = ground (arith, all_counted rs)

length-insert_newest :
    (r : OfflineJob) (rs : List OfflineJob) → length (insert_newest r rs) ≡ suc (length rs)
unfolding insert_newest
length-insert_newest r [] = refl
length-insert_newest r (q ∷ qs) = ground (arith, length-insert_newest r qs)

length-newest_first : (rs : List OfflineJob) → length (newest_first rs) ≡ length rs
unfolding newest_first
length-newest_first [] = refl
length-newest_first (r ∷ rs) =
    omega (arith, length-newest_first rs, length-insert_newest r (newest_first rs))

length-limited : (n : ℕ) (rs : List OfflineJob) → length (limited n rs) ≡ min n (length rs)
length-limited zero rs = omega arith
length-limited (suc n) [] = omega arith
length-limited (suc n) (r ∷ rs) = omega (arith, length-limited n rs)

-- The counts of CountJobsByStatus add up to the number of rows, and ListOfflineJobs returns all
-- rows up to the limit, which is 100 where the int64 given is not positive.
pub report_lem :
    (limit : ℕ) (t : Table)
    → (count_jobs_by_status t queued
          + count_jobs_by_status t processing
          + count_jobs_by_status t completed
          + count_jobs_by_status t failed
          + count_jobs_by_status t cancelled
        ≡ length t.rows)
      × (length (list_offline_jobs limit t)
          ≡ min (if le_signed limit 0 then 100 else limit) (length t.rows))
unfolding count_jobs_by_status list_offline_jobs
report_lem limit t = (
  all_counted t.rows,
  elim (Bool-cases (le_signed limit 0)) [
    | inl default ↦
        rw default
          (omega (arith, length-limited 100 (newest_first t.rows), length-newest_first t.rows))
    | inr given ↦
        rw given
          (omega (arith, length-limited limit (newest_first t.rows), length-newest_first t.rows))
  ],
)
