-- ===== src/Upload/Usenet/Chunks.antt =====
-- services/upload_usenet.go: the chunks that UploadToUsenet reads make up the file.
use loon_agent.Prelude.{
  codes, decimal, ℕ, zero, suc, ◌+◌, ◌-◌, ◌*◌, ◌≤◌, ◌<◌, ◌≡◌, refl, sym, ap, ◌∙◌, false, none, List,
  [], ◌∷◌, ◌++◌, arith, length, Bytes,
}
use native.Mathlib.Nat.{suc-mul}
use loon_agent.Prelude.{
  inl, inr, subst, take-full, take, drop, take-plus, take_all, take_none, length-take_le,
  length-drop, take-pos,
}
use mathlib.Core.List.{append-nil, append_assoc}
use loon_agent.Upload.Article.{chunk_size}
use loon_agent.Upload.Article.History.{joined}
use loon_agent.Upload.Usenet.{
  UploadJob, ReadResult, read, total_chunks, Upload, job_of, dispatch_from, dispatch,
}

abbrev pub slice : ℕ → Bytes → ℕ → Bytes
slice size file i = take size (drop ((i - 1) * size) file)

-- Chunk `i` of a file that is read in full buffers.
abbrev pub chunk_of : Bytes → ℕ → Bytes
chunk_of = slice chunk_size

pred-suc : (n : ℕ) → suc n - 1 ≡ n
pred-suc n = omega arith

joined-take : (size n : ℕ) (file : Bytes) → joined n (slice size file) ≡ take (n * size) file
joined-take size zero file = sym (take_none (0 * size) file (omega arith))
joined-take size (suc n) file =
    ap (λ s. s ++ slice size file (suc n)) (joined-take size n file)
    ∙ (ap (λ k. take (n * size) file ++ take size (drop (k * size) file)) (pred-suc n)
        ∙ (sym (take-plus (n * size) size file) ∙ ap (λ m. take m file) (sym (suc-mul n size))))

-- The chunks are the file cut up.
pub joined-chunk_of : (file : Bytes) → joined (total_chunks (length file)) (chunk_of file) ≡ file
joined-chunk_of file =
    joined-take chunk_size (total_chunks (length file)) file
    ∙ take_all (total_chunks (length file) * chunk_size) file (omega arith)

chunk_nonempty :
    (file : Bytes) (i : ℕ)
    → i < total_chunks (length file)
    → (c : ℕ) × (s : List ℕ) × (chunk_of file (suc i) ≡ c ∷ s)
chunk_nonempty file i h =
    take-pos chunk_size (drop ((suc i - 1) * chunk_size) file) (omega arith)
      (omega (arith, length-drop ((suc i - 1) * chunk_size) file))

-- The jobs for the chunks from number `i` on.
abbrev pub jobs_from : Upload → Bytes → ℕ → ℕ → List UploadJob
jobs_from u file i zero = []
jobs_from u file i (suc left) = job_of u i (chunk_of file i) ∷ jobs_from u file (suc i) left

length-jobs_from :
    (u : Upload) (file : Bytes) (i left : ℕ) → length (jobs_from u file i left) ≡ left
length-jobs_from u file i zero = omega arith
length-jobs_from u file i (suc left) = omega (arith, length-jobs_from u file (suc i) left)

dispatch-cons :
    (reads : ℕ → ReadResult) (u : Upload) (i left c : ℕ) (s : Bytes)
    → reads i ≡ read (c ∷ s)
    → dispatch_from (λ k. false) reads u i (suc left) ≡ (
      job_of u i (c ∷ s) ∷ (dispatch_from (λ k. false) reads u (suc i) left).0,
      (dispatch_from (λ k. false) reads u (suc i) left).1,
    )
unfolding dispatch_from
dispatch-cons reads u i left c s h = rw h refl

dispatch_from_lem :
    (reads : ℕ → ReadResult) (u : Upload) (file : Bytes) (i left : ℕ)
    → ((k : ℕ) → reads k ≡ read (chunk_of file k))
    → i + left ≡ total_chunks (length file)
    → dispatch_from (λ k. false) reads u (suc i) left ≡ (jobs_from u file (suc i) left, none)
dispatch_from_lem reads u file i zero full h = unfold dispatch_from in refl
dispatch_from_lem reads u file i (suc left) full h =
    let (c, s, e) = chunk_nonempty file i (omega arith) in
    dispatch-cons reads u (suc i) left c s (full (suc i) ∙ ap read e)
    ∙ (ap (λ p. (job_of u (suc i) (c ∷ s) ∷ p.0, p.1))
          (dispatch_from_lem reads u file (suc i) left full (omega arith))
        ∙ ap (λ b. (job_of u (suc i) b ∷ jobs_from u file (suc (suc i)) left, none)) (sym e))

-- The bytes of the jobs, in order.
abbrev pub data_of : List UploadJob → Bytes
data_of [] = []
data_of (j ∷ js) = j.chunk_data ++ data_of js

-- Jobs that follow `k` others with `before` bytes: they are numbered on, each says how many bytes
-- come before its own, which are from one to ChunkSize, and all name the file with its size and
-- the number of its parts.
abbrev pub Continues : Upload → ℕ → ℕ → List UploadJob → Type 0
Continues u k before [] = Unit
Continues u k before (j ∷ js) =
    (j.number ≡ k + 1)
    × (j.subject
        ≡ u.subject_prefix
          ++ codes " ("
          ++ decimal (k + 1)
          ++ codes "/"
          ++ decimal (total_chunks u.file_size)
          ++ codes ")")
    × (j.chunk_offset ≡ before)
    × (0 < length j.chunk_data)
    × (length j.chunk_data ≤ chunk_size)
    × (j.file_name ≡ u.embed_name)
    × (j.total_size ≡ u.file_size)
    × (j.total_parts ≡ total_chunks u.file_size)
    × Continues u (k + 1) (before + length j.chunk_data) js

joined-data_of :
    (u : Upload) (file : Bytes) (k left n : ℕ)
    → k + left ≡ n
    → joined k (chunk_of file) ++ data_of (jobs_from u file (suc k) left) ≡ joined n (chunk_of file)
joined-data_of u file k zero n e =
    let same : k ≡ n = omega arith in
    append-nil (joined k (chunk_of file)) ∙ ap (λ m. joined m (chunk_of file)) same
joined-data_of u file k (suc left) n e =
    sym (append_assoc (joined k (chunk_of file)) (chunk_of file (suc k)) _)
    ∙ joined-data_of u file (suc k) left n (omega arith)

chunk_full :
    (file : Bytes) (k : ℕ)
    → suc k < total_chunks (length file)
    → length (chunk_of file (suc k)) ≡ chunk_size
chunk_full file k h =
    let rest = drop ((suc k - 1) * chunk_size) file in
    elim (take-full chunk_size rest) [
      | inl last ↦ absurd (
          omega (
            arith,
            ap length last,
            length-drop chunk_size rest,
            length-drop ((suc k - 1) * chunk_size) file,
          ))
      | inr full ↦ full
    ]

filled : {c : ℕ} {s b : Bytes} → b ≡ c ∷ s → 0 < length b
filled e = rw e (omega arith)

jobs_from-Continues :
    (u : Upload) (file : Bytes) (k before left : ℕ)
    → k + left ≡ total_chunks (length file)
    → (0 < left → before ≡ k * chunk_size)
    → Continues u k before (jobs_from u file (suc k) left)
jobs_from-Continues u file k before zero whole at_k = tt
jobs_from-Continues u file k before (suc left) whole at_k =
    let start = at_k (omega arith) in
    let (c, s, e) = chunk_nonempty file k (omega arith) in
    let next : suc k ≡ k + 1 = omega arith in
    (
      next,
      ap (λ n. (job_of u n (chunk_of file (suc k))).subject) next,
      omega arith,
      filled e,
      length-take_le chunk_size (drop ((suc k - 1) * chunk_size) file),
      refl,
      refl,
      refl,
      subst
          (λ n.
            Continues u n (before + length (chunk_of file (suc k)))
              (jobs_from u file (suc (suc k)) left))
          (omega arith)
          (jobs_from-Continues u file (suc k) (before + length (chunk_of file (suc k))) left
            (omega arith) (λ more. omega (arith, chunk_full file k (omega arith)))),
    )

-- A file whose size is the one of Stat, read in full buffers by a context that is not done, is sent
-- without an error as jobs for all its chunks, the ceiling of its size by ChunkSize: their bytes
-- joined are the file, and each job has its number from 1 on, also in its
-- subject, the count of the bytes before its
-- own, from one to ChunkSize bytes, and the name, the size and the number of parts of the file.
pub dispatch_lem :
    (reads : ℕ → ReadResult) (u : Upload) (file : Bytes)
    → ((k : ℕ) → reads k ≡ read (chunk_of file k))
    → u.file_size ≡ length file
    → ((dispatch (λ k. false) reads u).1 ≡ none)
      × (length (dispatch (λ k. false) reads u).0 ≡ total_chunks (length file))
      × (data_of (dispatch (λ k. false) reads u).0 ≡ file)
      × Continues u 0 0 (dispatch (λ k. false) reads u).0
unfolding dispatch
dispatch_lem reads u file full size =
    let n = total_chunks (length file) in
    let sent =
      ap (λ n. dispatch_from (λ k. false) reads u 1 (total_chunks n)) size
      ∙ dispatch_from_lem reads u file 0 n full (omega arith) in
    rw sent (
      refl,
      length-jobs_from u file 1 n,
      joined-data_of u file 0 n n (omega arith) ∙ joined-chunk_of file,
      jobs_from-Continues u file 0 0 n (omega arith) (λ more. omega arith),
    )
