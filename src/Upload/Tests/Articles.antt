-- ===== src/Upload/Tests/Articles.antt =====
-- Runs of the CRC, of the parts of a file and of the upload pool.
use loon_agent.Prelude.{
  ℕ, ◌+◌, ◌*◌, ◌≡◌, refl, suc, true, false, Option, none, some, List, [], ◌∷◌, arith, Bytes, codes,
  length, sum_by,
}
use loon_agent.Dict.{Dict, remove}
use loon_agent.Bits.{bits_of}
use loon_agent.Upload.Crc.{crc32, crc32_combine, combine_loop}
use loon_agent.Upload.Crc.Combine.{crc32_combine-crc32}
use loon_agent.Upload.Article.{Part, key_of, whole_file_crc}
use loon_agent.Upload.Article.History.{Event, registers, written, behind, joined}
use loon_agent.Upload.Article.WholeFile.{whole_file_crc_lem}
use loon_agent.Upload.Usenet.{
  UploadError, UploadJob, NzbSegment, Upload, Attempt, read, job_of, dispatch, total_chunks,
  upload_job, used_up, refused, posted,
}
use loon_agent.Upload.Par2.{fit_block_size}
use loon_agent.Upload.Usenet.Chunks.{chunk_of, data_of, Continues, dispatch_lem}
use loon_agent.Upload.Usenet.Pool.{
  PoolEvent, closes, takes, finishes, leaves, run_pool, start_pool, segment_of,
}
use loon_agent.Upload.Usenet.Accounts.{of_job, of_segment}
use loon_agent.Upload.Usenet.Delivery.{upload_result_lem}

-- The check value of CRC-32.
crc32_test : crc32 (codes "123456789") ≡ bits_of 32 0xcbf43926
unfolding crc32 mathlib.Core.Bool.xor
crc32_test = refl

combine_test :
    crc32_combine (bits_of 32 0x9be3e0a3) (crc32 (codes "56789")) 5 ≡ bits_of 32 0xcbf43926
unfolding crc32 crc32_combine combine_loop mathlib.Core.Bool.xor
combine_test = refl

crc32_combine-crc32_example :
    crc32_combine (crc32 (codes "1234")) (crc32 (codes "56789")) 5 ≡ crc32 (codes "123456789")
crc32_combine-crc32_example = crc32_combine-crc32 (codes "1234") (codes "56789")

abbrev chunk : ℕ → Bytes
chunk k = k ∷ 7 ∷ []

abbrev part : Bytes → ℕ → Part
part name k = record {
  chunk_data = chunk k;
  file_name = name;
  part_number = k;
  total_parts = 2;
  chunk_offset = 0;
  total_size = 4;
}

-- The last part registers first, a part of another file in between.
abbrev history : List Event
history =
    registers (part (codes "a") 1)
    ∷ written (part (codes "b") 2)
    ∷ registers (part (codes "b") 2)
    ∷ registers (part (codes "a") 2)
    ∷ []

whole_file_crc_lem_example :
    whole_file_crc (behind [] history) (part (codes "a") 2)
    ≡ some (some (crc32 (joined 2 chunk)), remove (behind [] history) (key_of (part (codes "a") 2)))
unfolding loon_agent.Dict.get
whole_file_crc_lem_example =
    whole_file_crc_lem (part (codes "a") 2) chunk [] history (omega arith) refl refl refl

abbrev small_upload : Upload
small_upload = record { subject_prefix = codes "s"; embed_name = codes "n"; file_size = 2 }

abbrev small_jobs : List UploadJob × Option UploadError
small_jobs = dispatch (λ k. false) (λ k. read (chunk_of (5 ∷ 6 ∷ []) k)) small_upload

dispatch_lem_example :
    (small_jobs.1 ≡ none)
    × (length small_jobs.0 ≡ 1)
    × (data_of small_jobs.0 ≡ 5 ∷ 6 ∷ [])
    × Continues small_upload 0 0 small_jobs.0
dispatch_lem_example =
    dispatch_lem (λ k. read (chunk_of (5 ∷ 6 ∷ []) k)) small_upload (5 ∷ 6 ∷ []) (λ k. refl) refl

abbrev bad_password : Attempt
bad_password = record {
  is_done = false;
  connect = some (codes "NNTP Auth failed: 481 no");
  post = none;
  is_interrupted = false;
}

abbrev timeout : Attempt
timeout = record {
  is_done = false;
  connect = none;
  post = some (codes "i/o timeout");
  is_interrupted = false;
}

abbrev good : Attempt
good = record { is_done = false; connect = none; post = none; is_interrupted = false }

abbrev then_good : ℕ → Attempt
then_good (suc (suc (suc k))) = good
then_good _ = timeout

-- The third attempt succeeds; a password is refused at once; three timeouts use up the attempts.
retry_test : upload_job then_good false ≡ posted
unfolding upload_job
retry_test = refl

refused_test : upload_job (λ k. bad_password) false ≡ refused (codes "NNTP Auth failed: 481 no")
unfolding upload_job
refused_test = refl

used_up_test : upload_job (λ k. timeout) true ≡ used_up
unfolding upload_job
used_up_test = refl

abbrev two_jobs : List UploadJob
two_jobs = job_of small_upload 1 (5 ∷ []) ∷ job_of small_upload 2 (6 ∷ []) ∷ []

-- Two workers; the second job is posted first.
abbrev pool_run : List PoolEvent
pool_run =
    leaves 0
    ∷ leaves 1
    ∷ finishes 0 (codes "x") (λ k. good)
    ∷ closes
    ∷ finishes 1 (codes "y") (λ k. good)
    ∷ takes 1
    ∷ takes 0
    ∷ []

abbrev two_segments : List NzbSegment
two_segments =
    segment_of (job_of small_upload 2 (6 ∷ [])) (codes "y")
    ∷ segment_of (job_of small_upload 1 (5 ∷ [])) (codes "x")
    ∷ []

abbrev no_error : Option UploadError
no_error = none

upload_result_lem_example :
    (no_error ≡ none)
    × (sum_by (of_segment (λ bytes number. bytes)) two_segments
        ≡ sum_by (of_job (λ bytes number. bytes)) two_jobs)
unfolding loon_agent.Upload.Usenet.Pool.take_job loon_agent.Upload.Usenet.Pool.finish_job
    loon_agent.Upload.Usenet.Pool.end_job loon_agent.Upload.Usenet.Pool.leave
    loon_agent.Upload.Usenet.Pool.worker_at loon_agent.Upload.Usenet.Pool.set_worker upload_job
    loon_agent.Upload.Usenet.upload_with_retries
upload_result_lem_example =
    upload_result_lem 2 two_jobs no_error pool_run two_segments (λ bytes number. bytes)
      (omega arith) refl refl

-- One byte above 32768 slices: the size is kept, and a slice more is needed than PAR2 allows.
fit_test : fit_block_size (32768 * 716800 + 1) 716800 ≡ 716800
unfolding fit_block_size
fit_test = refl

fit_scaled_test : fit_block_size (32769 * 716800) 716800 ≡ 716824
unfolding fit_block_size
fit_scaled_test = refl
