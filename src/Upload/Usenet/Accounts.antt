-- ===== src/Upload/Usenet/Accounts.antt =====
-- services/upload_usenet.go: what becomes of the jobs of UploadToUsenet while no error is reported.
use loon_agent.Prelude.{
  ℕ, zero, suc, ◌+◌, ◌≡◌, refl, sym, ap, ◌∙◌, ◌≢◌, Bool, true, false, ◌||◌, Option, none, some,
  List, [], ◌∷◌, arith, length, any, sum_by, sum_by-append, if◌then◌else◌, Bytes,
}
use mathlib.Core.Bool.{true≢false}
use loon_agent.Upload.Usenet.{
  UploadJob, NzbSegment, UploadError, auth_failed, chunk_failed, JobEnd, posted, refused, used_up,
  stopped, Attempt, upload_job,
}
use loon_agent.Upload.Usenet.Pool.{
  Worker, idle, busy, exited, Pool, PoolEvent, closes, cancels, takes, finishes, leaves, worker_at,
  set_worker, take_job, end_job, finish_job, leave, pool_step, run_pool, idle_workers, start_pool,
  report, report_failure, segment_of,
}

abbrev pub is_exited : Worker → Bool
is_exited exited = true
is_exited _ = false

-- What is counted of a job and of a segment: any number made of its size and its part number.
abbrev pub of_job : (ℕ → ℕ → ℕ) → UploadJob → ℕ
of_job f job = f (length job.chunk_data) job.number

abbrev pub of_segment : (ℕ → ℕ → ℕ) → NzbSegment → ℕ
of_segment f segment = f segment.bytes segment.number

abbrev pub held : (ℕ → ℕ → ℕ) → Worker → ℕ
held f (busy _ job) = of_job f job
held f _ = 0

or_else : Worker → Option Worker → Worker
or_else x none = x
or_else x (some y) = y

some_eq : (x y : Worker) → some x ≡ some y → x ≡ y
unfolding or_else
some_eq x y h = ap (λ o. or_else x o) h

set_worker-sum :
    (g : Worker → ℕ) (ws : List Worker) (w : ℕ) (old new : Worker)
    → worker_at ws w ≡ some old
    → sum_by g (set_worker ws w new) + g old ≡ sum_by g ws + g new
unfolding worker_at set_worker
set_worker-sum g [] w old new h = cc
set_worker-sum g (x ∷ xs) zero old new h = omega (arith, ap g (some_eq x old h))
set_worker-sum g (x ∷ xs) (suc w) old new h = omega (arith, set_worker-sum g xs w old new h)

set_worker-any :
    (g : Worker → Bool) (ws : List Worker) (w : ℕ) (old new : Worker)
    → worker_at ws w ≡ some old
    → g new ≡ g old
    → any g (set_worker ws w new) ≡ any g ws
unfolding worker_at set_worker
set_worker-any g [] w old new h e = cc
set_worker-any g (x ∷ xs) zero old new h e =
    ap (λ b. b || any g xs) (e ∙ sym (ap g (some_eq x old h)))
set_worker-any g (x ∷ xs) (suc w) old new h e =
    ap (λ b. g x || b) (set_worker-any g xs w old new h e)

-- While no error is reported and the context is not done: nothing has been lost, a worker has left
-- only because the channel was closed and empty, and the dispatcher closed it without an error.
abbrev pub Accounts : (ℕ → ℕ → ℕ) → ℕ → Pool → Type 0
Accounts f total p =
    p.is_cancelled ≡ false
    → p.errs ≡ none
    → (sum_by (of_job f) p.waiting + sum_by (held f) p.workers + sum_by (of_segment f) p.results
        ≡ total)
      × (any is_exited p.workers ≡ true → (p.is_closed ≡ true) × (p.waiting ≡ []))
      × (p.is_closed ≡ true → p.read_failure ≡ none)

pub not_both : {b : Bool} → b ≡ true → b ≢ false
not_both h k = true≢false (sym h ∙ k)

cons_ne_nil : (job : UploadJob) (rest : List UploadJob) → (job ∷ rest) ≢ []
cons_ne_nil job rest h = cc

report_ne : (errs : Option UploadError) (e : UploadError) → report errs e ≢ none
report_ne none e h = cc
report_ne (some first) e h = cc

report_failure-none :
    (errs failure : Option UploadError)
    → report_failure errs failure ≡ none
    → (errs ≡ none) × (failure ≡ none)
report_failure-none errs none h = (h, refl)
report_failure-none errs (some e) h = absurd (report_ne errs e h)

take_job-Accounts :
    (f : ℕ → ℕ → ℕ) (total : ℕ) (p : Pool) (w : ℕ) (o : Option Worker) (jobs : List UploadJob)
    → worker_at p.workers w ≡ o
    → p.waiting ≡ jobs
    → Accounts f total p
    → Accounts f total (take_job p w o jobs)
unfolding take_job
take_job-Accounts f total p w (some (idle c)) (job ∷ rest) at_w is_waiting before = λ run clear.
    let (sums, left, closed) = before run clear in
    let same = set_worker-any is_exited p.workers w (idle c) (busy c job) at_w refl in
    (
      omega (
        arith,
        set_worker-sum (held f) p.workers w (idle c) (busy c job) at_w,
        ap (sum_by (of_job f)) is_waiting,
        sums,
      ),
      λ some_left. absurd (cons_ne_nil job rest (sym is_waiting ∙ (left (sym same ∙ some_left)).1)),
      closed,
    )
take_job-Accounts f total p w none jobs at_w is_waiting before = before
take_job-Accounts f total p w (some exited) jobs at_w is_waiting before = before
take_job-Accounts f total p w (some (busy c job)) jobs at_w is_waiting before = before
take_job-Accounts f total p w (some (idle c)) [] at_w is_waiting before = before

end_job-Accounts :
    (f : ℕ → ℕ → ℕ) (total : ℕ) (p : Pool) (w : ℕ) (c : Bool) (job : UploadJob) (message_id : Bytes)
    (end : JobEnd)
    → worker_at p.workers w ≡ some (busy c job)
    → Accounts f total p
    → Accounts f total (end_job p w job message_id end)
unfolding end_job
end_job-Accounts f total p w c job message_id posted at_w before run clear =
    let (sums, left, closed) = before run clear in
    let same = set_worker-any is_exited p.workers w (busy c job) (idle true) at_w refl in
    (
      omega (
        arith,
        set_worker-sum (held f) p.workers w (busy c job) (idle true) at_w,
        sum_by-append (of_segment f) p.results (segment_of job message_id ∷ []),
        sums,
      ),
      λ some_left. left (sym same ∙ some_left),
      closed,
    )
end_job-Accounts f total p w c job message_id (refused e) at_w before run clear =
    absurd (report_ne p.errs (auth_failed e) clear)
end_job-Accounts f total p w c job message_id used_up at_w before run clear =
    absurd (report_ne p.errs (chunk_failed job.number) clear)
end_job-Accounts f total p w c job message_id stopped at_w before run clear = cc

finish_job-Accounts :
    (f : ℕ → ℕ → ℕ) (total : ℕ) (p : Pool) (w : ℕ) (message_id : Bytes) (attempts : ℕ → Attempt)
    (o : Option Worker)
    → worker_at p.workers w ≡ o
    → Accounts f total p
    → Accounts f total (finish_job p w message_id attempts o)
unfolding finish_job
finish_job-Accounts f total p w message_id attempts (some (busy c job)) at_w before =
    end_job-Accounts f total p w c job message_id (upload_job attempts c) at_w before
finish_job-Accounts f total p w message_id attempts (some (idle c)) at_w before = before
finish_job-Accounts f total p w message_id attempts (some exited) at_w before = before
finish_job-Accounts f total p w message_id attempts none at_w before = before

exit_idle-Accounts :
    (f : ℕ → ℕ → ℕ) (total : ℕ) (p : Pool) (w : ℕ) (c : Bool)
    → worker_at p.workers w ≡ some (idle c)
    → (p.is_cancelled ≡ false → (p.is_closed ≡ true) × (p.waiting ≡ []))
    → Accounts f total p
    → Accounts f total (record p { workers = set_worker p.workers w exited })
exit_idle-Accounts f total p w c at_w ended before run clear =
    let (sums, left, closed) = before run clear in
    (
      omega (arith, set_worker-sum (held f) p.workers w (idle c) exited at_w, sums),
      λ some_left. ended run,
      closed,
    )

either_Accounts :
    (f : ℕ → ℕ → ℕ) (total : ℕ) (b : Bool) (p q : Pool)
    → (b ≡ true → Accounts f total p)
    → (b ≡ false → Accounts f total q)
    → Accounts f total (if b then p else q)
either_Accounts f total true p q h k = h refl
either_Accounts f total false p q h k = k refl

leave-Accounts :
    (f : ℕ → ℕ → ℕ) (total : ℕ) (p : Pool) (w : ℕ) (o : Option Worker) (jobs : List UploadJob)
    → worker_at p.workers w ≡ o
    → p.waiting ≡ jobs
    → Accounts f total p
    → Accounts f total (leave p w o jobs)
unfolding leave
leave-Accounts f total p w (some (idle c)) [] at_w is_waiting before =
    let gone : Pool = record p { workers = set_worker p.workers w exited } in
    either_Accounts f total p.is_cancelled gone (if p.is_closed then gone else p)
      (λ done. exit_idle-Accounts f total p w c at_w (λ run. absurd (not_both done run)) before)
      (λ runs.
        either_Accounts f total p.is_closed gone p
          (λ closed. exit_idle-Accounts f total p w c at_w (λ run. (closed, is_waiting)) before)
          (λ open_. before))
leave-Accounts f total p w (some (idle c)) (job ∷ rest) at_w is_waiting before =
    either_Accounts f total p.is_cancelled (record p { workers = set_worker p.workers w exited }) p
      (λ done. exit_idle-Accounts f total p w c at_w (λ run. absurd (not_both done run)) before)
      (λ runs. before)
leave-Accounts f total p w (some (busy c job)) jobs at_w is_waiting before = before
leave-Accounts f total p w (some exited) jobs at_w is_waiting before = before
leave-Accounts f total p w none jobs at_w is_waiting before = before

pool_step-Accounts :
    (f : ℕ → ℕ → ℕ) (total : ℕ) (p : Pool) (e : PoolEvent)
    → Accounts f total p
    → Accounts f total (pool_step p e)
pool_step-Accounts f total p closes before = λ run clear.
    let (no_errs, no_failure) = report_failure-none p.errs p.read_failure clear in
    let (sums, left, closed) = before run no_errs in
    (sums, λ some_left. (refl, (left some_left).1), λ _. no_failure)
pool_step-Accounts f total p cancels before = λ run clear. absurd (not_both refl run)
pool_step-Accounts f total p (takes w) before =
    take_job-Accounts f total p w (worker_at p.workers w) p.waiting refl refl before
pool_step-Accounts f total p (finishes w message_id attempts) before =
    finish_job-Accounts f total p w message_id attempts (worker_at p.workers w) refl before
pool_step-Accounts f total p (leaves w) before =
    leave-Accounts f total p w (worker_at p.workers w) p.waiting refl refl before

idle_workers-sum : (f : ℕ → ℕ → ℕ) (n : ℕ) → sum_by (held f) (idle_workers n) ≡ 0
idle_workers-sum f zero = refl
idle_workers-sum f (suc n) = omega (arith, idle_workers-sum f n)

idle_workers-any : (n : ℕ) → any is_exited (idle_workers n) ≡ false
idle_workers-any zero = refl
idle_workers-any (suc n) = idle_workers-any n

pub run_pool-Accounts :
    (f : ℕ → ℕ → ℕ) (n : ℕ) (jobs : List UploadJob) (failed : Option UploadError)
    (events : List PoolEvent)
    → Accounts f (sum_by (of_job f) jobs) (run_pool (start_pool n (jobs, failed)) events)
run_pool-Accounts f n jobs failed [] = λ run clear. (
  omega (arith, idle_workers-sum f n),
  λ some_left. absurd (not_both some_left (idle_workers-any n)),
  λ closed. absurd (not_both closed refl),
)
run_pool-Accounts f n jobs failed (e ∷ past) =
    pool_step-Accounts f (sum_by (of_job f) jobs) (run_pool (start_pool n (jobs, failed)) past) e
      (run_pool-Accounts f n jobs failed past)
