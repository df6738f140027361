-- ===== src/Upload/Usenet/Pool.antt =====
-- services/upload_usenet.go: the workers of UploadToUsenet, as steps that each of them takes, with
-- the channels between them, the dispatcher and the collector.
use loon_agent.Prelude.{
  ℕ, zero, suc, Bool, true, false, Option, none, some, List, [], ◌∷◌, ◌++◌, length, if◌then◌else◌,
  Bytes,
}
use loon_agent.Upload.Usenet.{
  UploadJob, NzbSegment, UploadError, auth_failed, chunk_failed, cancelled, Attempt, JobEnd, posted,
  refused, used_up, stopped, upload_job,
}

-- The Boolean says whether the worker has a connection.
pub data Worker : Type 0 where
  idle : Bool → Worker
  busy : Bool → UploadJob → Worker
  exited : Worker

-- The jobs that no worker has taken, whether their channel is closed, what the dispatcher reports
-- before it closes it, the workers, the two channels that they send to, and the context.
pub record Pool : Type 0 where
  pub waiting : List UploadJob
  pub is_closed : Bool
  pub read_failure : Option UploadError
  pub workers : List Worker
  pub results : List NzbSegment
  pub errs : Option UploadError
  pub is_cancelled : Bool

pub data PoolEvent : Type 0 where
  closes : PoolEvent
  cancels : PoolEvent
  takes : ℕ → PoolEvent
  finishes : ℕ → Bytes → (ℕ → Attempt) → PoolEvent
  leaves : ℕ → PoolEvent

-- `errs` has room for one error; others are dropped.
abbrev pub report : Option UploadError → UploadError → Option UploadError
report none e = some e
report (some first) e = some first

abbrev pub report_failure : Option UploadError → Option UploadError → Option UploadError
report_failure errs none = errs
report_failure errs (some e) = report errs e

unfoldable pub worker_at : List Worker → ℕ → Option Worker
worker_at [] w = none
worker_at (x ∷ xs) zero = some x
worker_at (x ∷ xs) (suc w) = worker_at xs w

unfoldable pub set_worker : List Worker → ℕ → Worker → List Worker
set_worker [] w new = []
set_worker (x ∷ xs) zero new = new ∷ xs
set_worker (x ∷ xs) (suc w) new = x ∷ set_worker xs w new

-- An idle worker receives the next job; any other is not at the channel.
unfoldable pub take_job : Pool → ℕ → Option Worker → List UploadJob → Pool
take_job p w (some (idle connected)) (job ∷ rest) = record p {
  waiting = rest;
  workers = set_worker p.workers w (busy connected job);
}
take_job p w _ _ = p

abbrev pub segment_of : UploadJob → Bytes → NzbSegment
segment_of job message_id = record {
  bytes = length job.chunk_data;
  number = job.number;
  message_id = message_id;
}

-- A worker that stops in the middle of a job has seen that the context is done.
unfoldable pub end_job : Pool → ℕ → UploadJob → Bytes → JobEnd → Pool
end_job p w job message_id posted = record p {
  workers = set_worker p.workers w (idle true);
  results = p.results ++ (segment_of job message_id ∷ []);
}
end_job p w job message_id (refused e) = record p {
  workers = set_worker p.workers w exited;
  errs = report p.errs (auth_failed e);
}
end_job p w job message_id used_up = record p {
  workers = set_worker p.workers w exited;
  errs = report p.errs (chunk_failed job.number);
}
end_job p w job message_id stopped = record p {
  workers = set_worker p.workers w exited;
  is_cancelled = true;
}

unfoldable pub finish_job : Pool → ℕ → Bytes → (ℕ → Attempt) → Option Worker → Pool
finish_job p w message_id attempts (some (busy connected job)) =
    end_job p w job message_id (upload_job attempts connected)
finish_job p w message_id attempts _ = p

-- An idle worker leaves if the context is done, or if the channel is closed and empty.
unfoldable pub leave : Pool → ℕ → Option Worker → List UploadJob → Pool
leave p w (some (idle connected)) [] =
    if p.is_cancelled
    then record p { workers = set_worker p.workers w exited }
    else if p.is_closed
    then record p { workers = set_worker p.workers w exited }
    else p
leave p w (some (idle connected)) (job ∷ rest) =
    if p.is_cancelled then record p { workers = set_worker p.workers w exited } else p
leave p w _ _ = p

abbrev pub pool_step : Pool → PoolEvent → Pool
pool_step p closes = record p { is_closed = true; errs = report_failure p.errs p.read_failure }
pool_step p cancels = record p { is_cancelled = true }
pool_step p (takes w) = take_job p w (worker_at p.workers w) p.waiting
pool_step p (finishes w message_id attempts) =
    finish_job p w message_id attempts (worker_at p.workers w)
pool_step p (leaves w) = leave p w (worker_at p.workers w) p.waiting

-- The last event stands first.
abbrev pub run_pool : Pool → List PoolEvent → Pool
run_pool p [] = p
run_pool p (e ∷ past) = pool_step (run_pool p past) e

abbrev pub idle_workers : ℕ → List Worker
idle_workers zero = []
idle_workers (suc n) = idle false ∷ idle_workers n

-- The pool that the jobs and the error of the dispatcher come to, with `NNTPConnections` workers.
abbrev pub start_pool : ℕ → List UploadJob × Option UploadError → Pool
start_pool connections (jobs, failed) = record {
  waiting = jobs;
  is_closed = false;
  read_failure = failed;
  workers = idle_workers connections;
  results = [];
  errs = none;
  is_cancelled = false;
}

pub data UploadResult : Type 0 where
  uploaded : List NzbSegment → UploadResult
  upload_failed : UploadError → UploadResult

-- What UploadToUsenet returns once all workers have exited.
abbrev pub result_of : Bool → Option UploadError → List NzbSegment → UploadResult
result_of true errs segments = upload_failed cancelled
result_of false (some e) segments = upload_failed e
result_of false none segments = uploaded segments

abbrev pub upload_result : Pool → UploadResult
upload_result p = result_of p.is_cancelled p.errs p.results
