-- ===== src/Upload/Usenet.antt =====
-- services/upload_usenet.go: the jobs that UploadToUsenet makes of a file, and the retries of
-- nntpWorker for one job.
pub mod Chunks
pub mod Pool
pub mod Accounts
pub mod Delivery
use loon_agent.Prelude.{
  ℕ, zero, suc, ◌+◌, ◌-◌, ◌*◌, ◌/◌, Bool, true, false, ◌||◌, Option, none, some, List, [], ◌∷◌,
  ◌++◌, length, if◌then◌else◌, Bytes, codes, decimal, equal, has_infix,
}
use loon_agent.Upload.Article.{Part, chunk_size}

pub record UploadJob : Type 0 where
  pub chunk_data : Bytes
  pub number : ℕ
  pub total_parts : ℕ
  pub subject : Bytes
  pub file_name : Bytes
  pub chunk_offset : ℕ
  pub total_size : ℕ

pub record NzbSegment : Type 0 where
  pub bytes : ℕ
  pub number : ℕ
  pub message_id : Bytes

-- What a call of file.Read on a buffer of ChunkSize bytes returns; no bytes stand for the end.
pub data ReadResult : Type 0 where
  read : Bytes → ReadResult
  read_error : Bytes → ReadResult

pub data UploadError : Type 0 where
  read_chunk : ℕ → Bytes → UploadError
  auth_failed : Bytes → UploadError
  chunk_failed : ℕ → UploadError
  cancelled : UploadError

abbrev pub total_chunks : ℕ → ℕ
total_chunks size = (size + chunk_size - 1) / chunk_size

-- The arguments of UploadToUsenet that the jobs carry, and the size of the file.
pub record Upload : Type 0 where
  pub subject_prefix : Bytes
  pub embed_name : Bytes
  pub file_size : ℕ

abbrev pub job_of : Upload → ℕ → Bytes → UploadJob
job_of u i chunk_data =
    let total = total_chunks u.file_size in
    record {
      chunk_data = chunk_data;
      number = i;
      total_parts = total;
      subject =
          u.subject_prefix ++ codes " (" ++ decimal i ++ codes "/" ++ decimal total ++ codes ")";
      file_name = u.embed_name;
      chunk_offset = (i - 1) * chunk_size;
      total_size = u.file_size;
    }

-- The loop of the dispatcher, with `left` chunks to go from number `i` on: the jobs that it sends
-- and the error that it reports. `is_done i` says that the context is done before chunk `i`.
unfoldable pub dispatch_from :
    (ℕ → Bool) → (ℕ → ReadResult) → Upload → ℕ → ℕ → List UploadJob × Option UploadError
dispatch_from is_done reads u i zero = ([], none)
dispatch_from is_done reads u i (suc left) =
    let (jobs, failed) = dispatch_from is_done reads u (suc i) left in
    if is_done i then ([], none) else (elim (reads i) [
      | read [] ↦ ([], none)
      | read (c ∷ s) ↦ (job_of u i (c ∷ s) ∷ jobs, failed)
      | read_error e ↦ ([], some (read_chunk i e))
    ])

unfoldable pub dispatch :
    (ℕ → Bool) → (ℕ → ReadResult) → Upload → List UploadJob × Option UploadError
unfolding dispatch_from
dispatch is_done reads u = dispatch_from is_done reads u 1 (total_chunks u.file_size)

-- The argument list of the call of yEncodeChunk.
abbrev pub part_of : UploadJob → Part
part_of job = record {
  chunk_data = job.chunk_data;
  file_name = job.file_name;
  part_number = job.number;
  total_parts = job.total_parts;
  chunk_offset = job.chunk_offset;
  total_size = job.total_size;
}

-- The codes of a reply, as they stand in the text of an error.
abbrev pub is_nntp_auth_error : Bytes → Bool
is_nntp_auth_error s =
    has_infix s (codes "401 ")
    || has_infix s (codes "403 ")
    || has_infix s (codes "480 ")
    || has_infix s (codes "481 ")
    || has_infix s (codes "482 ")
    || has_infix s (codes "502 ")
    || has_infix s (codes "NNTP Auth failed")

-- What happens around one attempt: the context is done at its start; connectNNTP and uploadChunk
-- fail with a text; the context is done before the backoff is over.
pub record Attempt : Type 0 where
  pub is_done : Bool
  pub connect : Option Bytes
  pub post : Option Bytes
  pub is_interrupted : Bool

-- How a worker leaves the loop over the attempts: the article is posted, a permanent refusal, the
-- attempts are used up, or the context is done.
pub data JobEnd : Type 0 where
  posted : JobEnd
  refused : Bytes → JobEnd
  used_up : JobEnd
  stopped : JobEnd

abbrev pub max_retries : ℕ
max_retries = 3

-- After a failure: the attempts that follow have no connection.
abbrev pub after_failure : Attempt → Bytes → JobEnd → JobEnd
after_failure a e next =
    if is_nntp_auth_error e then refused e else if a.is_interrupted then stopped else next

-- The loop over the attempts, from `attempt` on with `left` to go.
unfoldable pub upload_with_retries : (ℕ → Attempt) → Bool → ℕ → ℕ → JobEnd
upload_with_retries attempts connected attempt zero = used_up
upload_with_retries attempts connected attempt (suc left) =
    let next = upload_with_retries attempts false (suc attempt) left in
    let a = attempts attempt in
    let posting : JobEnd = elim a.post [ none ↦ posted | some e ↦ after_failure a e next ] in
    let connecting : JobEnd = elim a.connect [ none ↦ posting | some e ↦ after_failure a e next ] in
    if a.is_done then stopped else if connected then posting else connecting

unfoldable pub upload_job : (ℕ → Attempt) → Bool → JobEnd
unfolding upload_with_retries
upload_job attempts connected = upload_with_retries attempts connected 1 max_retries
