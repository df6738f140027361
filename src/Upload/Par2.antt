-- ===== src/Upload/Par2.antt =====
-- services/upload_par2.go: fitBlockSize, the size of a PAR2 slice.
use loon_agent.Prelude.{
  ℕ, ◌+◌, ◌-◌, ◌*◌, ◌/◌, ◌≤◌, ◌<◌, ◌≡◌, refl, ◌⊎◌, inl, inr, ◌||◌, leb, ◌==◌, if◌then◌else◌, arith,
  Bool-cases,
}
use loon_agent.Upload.Article.{chunk_size}

abbrev pub max_par2_slices : ℕ
max_par2_slices = 32768

-- `want` and the size are not negative, and far below the bounds of an int64.
unfoldable pub fit_block_size : ℕ → ℕ → ℕ
fit_block_size total_size want =
    let scaled = (total_size + max_par2_slices - 1) / max_par2_slices in
    if (want == 0) || (total_size == 0) || leb (total_size / want) max_par2_slices
    then want
    else (scaled + 3) / 4 * 4

-- For slices of ChunkSize, the size that fitBlockSize returns needs at most 32768 slices, or it is
-- still ChunkSize and the release is less than a slice above 32768 of them.
pub fit_block_size_lem :
    (total_size : ℕ)
    → (total_size ≤ max_par2_slices * fit_block_size total_size chunk_size)
      ⊎ ((fit_block_size total_size chunk_size ≡ chunk_size)
          × (total_size < (max_par2_slices + 1) * chunk_size))
unfolding fit_block_size
fit_block_size_lem total_size =
    elim (Bool-cases
      ((chunk_size == 0) || (total_size == 0) || leb (total_size / chunk_size) max_par2_slices)) [
        | inl kept ↦ rw kept (inr (refl, ground arith))
        | inr scaled ↦ rw scaled (inl (omega arith))
      ]
