-- ===== src/Upload/Usenet/Delivery.antt =====
-- services/upload_usenet.go: an upload that succeeds has posted every chunk once.
use loon_agent.Prelude.{
  ℕ, zero, suc, ◌<◌, ◌≡◌, refl, sym, ap, ◌∙◌, Bool, true, false, Option, none, some, List, [], ◌∷◌,
  arith, length, any, all, sum_by, if◌then◌else◌, Bytes,
}
use loon_agent.Upload.Usenet.{
  UploadJob, NzbSegment, UploadError, JobEnd, posted, refused, used_up, stopped, Attempt,
  upload_job,
}
use loon_agent.Upload.Usenet.Pool.{
  Worker, idle, busy, exited, Pool, PoolEvent, closes, cancels, takes, finishes, leaves, worker_at,
  set_worker, take_job, end_job, finish_job, leave, pool_step, run_pool, idle_workers, start_pool,
  uploaded, upload_result, result_of,
}
use loon_agent.Upload.Usenet.Accounts.{is_exited, of_job, of_segment, held, run_pool-Accounts}

length-set_worker :
    (ws : List Worker) (w : ℕ) (new : Worker) → length (set_worker ws w new) ≡ length ws
unfolding set_worker
length-set_worker [] w new = refl
length-set_worker (x ∷ xs) zero new = refl
length-set_worker (x ∷ xs) (suc w) new = ap suc (length-set_worker xs w new)

-- The number of workers and the error that the dispatcher is going to report.
abbrev Fixed : ℕ → Option UploadError → Pool → Type 0
Fixed n failed p = (length p.workers ≡ n) × (p.read_failure ≡ failed)

module _ (n : ℕ) (failed : Option UploadError) (p : Pool) (w : ℕ) where
  set-Fixed :
      (new : Worker)
      → Fixed n failed p
      → Fixed n failed (record p { workers = set_worker p.workers w new })
  set-Fixed new (count, failure) = (length-set_worker p.workers w new ∙ count, failure)

  take_job-Fixed :
      (o : Option Worker) (jobs : List UploadJob)
      → Fixed n failed p
      → Fixed n failed (take_job p w o jobs)
  unfolding take_job
  take_job-Fixed (some (idle c)) (job ∷ rest) h = set-Fixed (busy c job) h
  take_job-Fixed none jobs h = h
  take_job-Fixed (some exited) jobs h = h
  take_job-Fixed (some (busy c job)) jobs h = h
  take_job-Fixed (some (idle c)) [] h = h

  end_job-Fixed :
      (job : UploadJob) (message_id : Bytes) (end : JobEnd)
      → Fixed n failed p
      → Fixed n failed (end_job p w job message_id end)
  unfolding end_job
  end_job-Fixed job message_id posted h = set-Fixed (idle true) h
  end_job-Fixed job message_id (refused e) h = set-Fixed exited h
  end_job-Fixed job message_id used_up h = set-Fixed exited h
  end_job-Fixed job message_id stopped h = set-Fixed exited h

  finish_job-Fixed :
      (message_id : Bytes) (attempts : ℕ → Attempt) (o : Option Worker)
      → Fixed n failed p
      → Fixed n failed (finish_job p w message_id attempts o)
  unfolding finish_job
  finish_job-Fixed message_id attempts (some (busy c job)) h =
      end_job-Fixed job message_id (upload_job attempts c) h
  finish_job-Fixed message_id attempts (some (idle c)) h = h
  finish_job-Fixed message_id attempts (some exited) h = h
  finish_job-Fixed message_id attempts none h = h

  either_Fixed :
      (b : Bool) (q r : Pool)
      → Fixed n failed q
      → Fixed n failed r
      → Fixed n failed (if b then q else r)
  either_Fixed true q r h k = h
  either_Fixed false q r h k = k

  leave-Fixed :
      (o : Option Worker) (jobs : List UploadJob)
      → Fixed n failed p
      → Fixed n failed (leave p w o jobs)
  unfolding leave
  leave-Fixed (some (idle c)) [] h =
      let gone : Pool = record p { workers = set_worker p.workers w exited } in
      either_Fixed p.is_cancelled gone (if p.is_closed then gone else p) (set-Fixed exited h)
        (either_Fixed p.is_closed gone p (set-Fixed exited h) h)
  leave-Fixed (some (idle c)) (job ∷ rest) h =
      either_Fixed p.is_cancelled (record p { workers = set_worker p.workers w exited }) p
        (set-Fixed exited h) h
  leave-Fixed (some (busy c job)) jobs h = h
  leave-Fixed (some exited) jobs h = h
  leave-Fixed none jobs h = h

pool_step-Fixed :
    (n : ℕ) (failed : Option UploadError) (p : Pool) (e : PoolEvent)
    → Fixed n failed p
    → Fixed n failed (pool_step p e)
pool_step-Fixed n failed p closes h = h
pool_step-Fixed n failed p cancels h = h
pool_step-Fixed n failed p (takes w) h =
    take_job-Fixed n failed p w (worker_at p.workers w) p.waiting h
pool_step-Fixed n failed p (finishes w message_id attempts) h =
    finish_job-Fixed n failed p w message_id attempts (worker_at p.workers w) h
pool_step-Fixed n failed p (leaves w) h =
    leave-Fixed n failed p w (worker_at p.workers w) p.waiting h

length-idle_workers : (n : ℕ) → length (idle_workers n) ≡ n
length-idle_workers zero = refl
length-idle_workers (suc n) = ap suc (length-idle_workers n)

run_pool-Fixed :
    (n : ℕ) (jobs : List UploadJob) (failed : Option UploadError) (events : List PoolEvent)
    → Fixed n failed (run_pool (start_pool n (jobs, failed)) events)
run_pool-Fixed n jobs failed [] = (length-idle_workers n, refl)
run_pool-Fixed n jobs failed (e ∷ past) =
    pool_step-Fixed n failed (run_pool (start_pool n (jobs, failed)) past) e
      (run_pool-Fixed n jobs failed past)

all_exited-any :
    (ws : List Worker) → 0 < length ws → all is_exited ws ≡ true → any is_exited ws ≡ true
all_exited-any [] h k = absurd (omega arith)
all_exited-any (x ∷ xs) h k = ground arith

all_exited-held :
    (f : ℕ → ℕ → ℕ) (ws : List Worker) → all is_exited ws ≡ true → sum_by (held f) ws ≡ 0
all_exited-held f [] h = refl
all_exited-held f (idle c ∷ ws) h = cc
all_exited-held f (busy c job ∷ ws) h = cc
all_exited-held f (exited ∷ ws) h = omega (arith, all_exited-held f ws h)

result-uploaded :
    (b : Bool) (errs : Option UploadError) (results segments : List NzbSegment)
    → result_of b errs results ≡ uploaded segments
    → (b ≡ false) × (errs ≡ none) × (results ≡ segments)
result-uploaded true errs results segments h = cc
result-uploaded false (some e) results segments h = cc
result-uploaded false none results segments h = (refl, refl, cc)

-- Whatever the workers did, in whatever order: if at least one was started, all have exited and
-- UploadToUsenet returns segments, then the dispatcher met no error, and the segments are those of
-- the dispatched jobs, each once: anything that is summed over the sizes and part numbers of the
-- segments is the same over the jobs.
pub upload_result_lem :
    (connections : ℕ) (jobs : List UploadJob) (failed : Option UploadError)
    (events : List PoolEvent) (segments : List NzbSegment) (f : ℕ → ℕ → ℕ)
    → 0 < connections
    → all is_exited (run_pool (start_pool connections (jobs, failed)) events).workers ≡ true
    → upload_result (run_pool (start_pool connections (jobs, failed)) events) ≡ uploaded segments
    → (failed ≡ none) × (sum_by (of_segment f) segments ≡ sum_by (of_job f) jobs)
upload_result_lem connections jobs failed events segments f pos gone success =
    let p = run_pool (start_pool connections (jobs, failed)) events in
    let (count, failure) = run_pool-Fixed connections jobs failed events in
    let (run, clear, same) = result-uploaded p.is_cancelled p.errs p.results segments success in
    let (sums, left, closed) = run_pool-Accounts f connections jobs failed events run clear in
    let (is_closed, empty) = left (all_exited-any p.workers (omega arith) gone) in
    (
      sym failure ∙ closed is_closed,
      omega (
        arith,
        sums,
        all_exited-held f p.workers gone,
        ap (sum_by (of_job f)) empty,
        ap (sum_by (of_segment f)) same,
      ),
    )
