-- ===== src/Storage/Offline.antt =====
-- storage/jobs.go and its table, storage/migrations/003_offline_jobs.sql: the queue of offline jobs.
pub mod Rows
pub mod Reach
pub mod Claim
pub mod Report
pub mod Refine
use loon_agent.Prelude.{
  ℕ, suc, ◌+◌, Bool, true, false, ◌&&◌, not, Option, none, some, List, [], ◌∷◌, any, filter, length,
  ltb, ◌==◌, if◌then◌else◌, Bytes, codes, equal,
}

pub data Status : Type 0 where
  queued processing completed failed cancelled : Status

abbrev pub is_queued : Status → Bool
is_queued queued = true
is_queued _ = false

abbrev pub is_processing : Status → Bool
is_processing processing = true
is_processing _ = false

-- A row of the table; `none` is NULL. Times are numbers, and so is the progress, which is only
-- stored.
pub record OfflineJob : Type 0 where
  pub id : ℕ
  pub source_path : Bytes
  pub title : Bytes
  pub group_id : Option ℕ
  pub group_name_at_creation : Bytes
  pub status : Status
  pub phase : Bytes
  pub progress : ℕ
  pub error : Option Bytes
  pub nzb_path : Option Bytes
  pub password : Option Bytes
  pub created_at : ℕ
  pub started_at : Option ℕ
  pub completed_at : Option ℕ

-- The fields of an OfflineJob that CreateOfflineJob reads; `none` is "" and the zero time.
pub record Draft : Type 0 where
  pub source_path : Bytes
  pub title : Bytes
  pub group_id : Option ℕ
  pub group_name_at_creation : Bytes
  pub status : Option Status
  pub phase : Bytes
  pub progress : ℕ
  pub created_at : Option ℕ

-- The newest row comes first. `next_id` is what AUTOINCREMENT gives next.
pub record Table : Type 0 where
  pub rows : List OfflineJob
  pub next_id : ℕ

abbrev pub or_else {ℓ} : {A : Type ℓ} → A → Option A → A
or_else a none = a
or_else a (some b) = b

abbrev pub has_path : Bytes → OfflineJob → Bool
has_path path r = equal r.source_path path

abbrev pub has_id : ℕ → OfflineJob → Bool
has_id id r = r.id == id

unfoldable pub source_path_exists : Bytes → Table → Bool
source_path_exists path t = any (has_path path) t.rows

abbrev pub row_of : ℕ → ℕ → Draft → OfflineJob
row_of now id j = record {
  id = id;
  source_path = j.source_path;
  title = j.title;
  group_id = j.group_id;
  group_name_at_creation = j.group_name_at_creation;
  status = or_else queued j.status;
  phase = j.phase;
  progress = j.progress;
  error = none;
  nzb_path = none;
  password = none;
  created_at = or_else now j.created_at;
  started_at = none;
  completed_at = none;
}

-- `none` is the violation of UNIQUE on source_path.
unfoldable pub create_offline_job : ℕ → Draft → Table → Option (ℕ × Table)
create_offline_job now j t =
    if any (has_path j.source_path) t.rows
    then none
    else some
        (t.next_id, record { rows = row_of now t.next_id j ∷ t.rows; next_id = suc t.next_id })

-- UPDATE ... WHERE
abbrev pub update_where :
    (OfflineJob → Bool) → (OfflineJob → OfflineJob) → List OfflineJob → List OfflineJob
update_where p f [] = []
update_where p f (r ∷ rs) = (if p r then f r else r) ∷ update_where p f rs

abbrev pub updated : (OfflineJob → Bool) → (OfflineJob → OfflineJob) → Table → Table
updated p f t = record t { rows = update_where p f t.rows }

-- SELECT ... WHERE status = 'queued' ORDER BY created_at ASC LIMIT 1, the older row first.
abbrev pub older : OfflineJob → Option OfflineJob → Option OfflineJob
older r none = some r
older r (some q) = if ltb r.created_at q.created_at then some r else some q

unfoldable pub oldest_queued : List OfflineJob → Option OfflineJob
oldest_queued [] = none
oldest_queued (r ∷ rs) =
    let rest = oldest_queued rs in if is_queued r.status then older r rest else rest

-- SELECT ... WHERE status = 'processing' ORDER BY started_at DESC LIMIT 1; NULL comes last.
abbrev pub is_later : Option ℕ → Option ℕ → Bool
is_later none b = false
is_later (some a) none = true
is_later (some a) (some b) = ltb b a

abbrev pub later : OfflineJob → Option OfflineJob → Option OfflineJob
later r none = some r
later r (some q) = if is_later r.started_at q.started_at then some r else some q

unfoldable pub latest_started : List OfflineJob → Option OfflineJob
latest_started [] = none
latest_started (r ∷ rs) =
    let rest = latest_started rs in if is_processing r.status then later r rest else rest

abbrev pub start : ℕ → OfflineJob → OfflineJob
start now r = record r { status = processing; started_at = some now; phase = codes "starting" }

pub data Claimed : Type 0 where
  nothing not_found : Claimed
  job : OfflineJob → Claimed

abbrev pub claimed_row : Option OfflineJob → Claimed
claimed_row none = not_found
claimed_row (some r) = job r

-- ClaimNextJob: the UPDATE, and the SELECT that reads the claimed row back.
abbrev pub claim_row : ℕ → Table → Option OfflineJob → Claimed × Table
claim_row now t none = (nothing, t)
claim_row now t (some q) =
    let claimed = updated (has_id q.id) (start now) t in
    (claimed_row (latest_started claimed.rows), claimed)

unfoldable pub claim_next_job : ℕ → Table → Claimed × Table
unfolding oldest_queued latest_started
claim_next_job now t = claim_row now t (oldest_queued t.rows)

unfoldable pub update_job_phase : ℕ → Bytes → ℕ → Table → Table
update_job_phase id phase progress =
    updated (has_id id) (λ r. record r { phase = phase; progress = progress })

unfoldable pub mark_job_completed : ℕ → ℕ → Bytes → Bytes → Table → Table
mark_job_completed now id nzb_path password = updated (has_id id) (λ r. record r {
  status = completed;
  phase = codes "done";
  progress = 100;
  nzb_path = some nzb_path;
  password = some password;
  completed_at = some now;
})

unfoldable pub mark_job_failed : ℕ → ℕ → Bytes → Table → Table
mark_job_failed now id message =
    updated (has_id id)
      (λ r. record r { status = failed; error = some message; completed_at = some now })

abbrev pub found_or : Bool → Table → Option Table
found_or true t = some t
found_or false t = none

-- `none` is ErrJobNotFound.
unfoldable pub reset_queued_job : ℕ → Table → Option Table
reset_queued_job id t = found_or (any (has_id id) t.rows) (
    updated (has_id id)
      (λ r. record r {
        status = queued;
        phase = [];
        progress = 0;
        error = none;
        nzb_path = none;
        started_at = none;
        completed_at = none;
      })
      t)

abbrev pub requeue : OfflineJob → OfflineJob
requeue r = record r { status = queued; phase = []; progress = 0; started_at = none }

unfoldable pub requeue_stuck_jobs : Table → ℕ × Table
requeue_stuck_jobs t = (
  length (filter (λ r. is_processing r.status) t.rows),
  updated (λ r. is_processing r.status) requeue t,
)

-- `none` is ErrJobNotFound.
unfoldable pub delete_job : ℕ → Table → Option Table
delete_job id t =
    found_or (any (has_id id) t.rows) (record t { rows = filter (λ r. not (has_id id r)) t.rows })
