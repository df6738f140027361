-- ===== src/Disk/Free.antt =====
-- services/disk_reserve_sweep.go: InitDiskLimit's cap, diskUsage and FreeDiskAfterReservations.
use loon_agent.Prelude.{
  ℕ, ◌+◌, ◌-◌, ◌%◌, ◌^◌, ◌<◌, ◌≡◌, refl, ap, ◌∙◌, Option, none, some, List, [], ◌∷◌, arith, add64,
  sub64, word, ltb, leb, le_signed, if◌then◌else◌, sum_by,
}
use Prim.Native.Nat.{min}
use loon_agent.FileTree.{Node, on_file, on_dir, on_locked, on_lost, go, Visitor, walk}
use loon_agent.FileTree.Files.{Found, files_in, fold_files, walk-fold_files}

unfoldable pub usage_visit : {E : Type 0} → Visitor ℕ E
usage_visit path (on_file i) total = (add64 total i.size, go)
usage_visit path (on_dir n) total = (total, go)
usage_visit path (on_locked n) total = (total, go)
usage_visit path (on_lost n) total = (total, go)

unfoldable pub disk_usage : Node → ℕ
unfolding usage_visit walk
disk_usage root = (walk {E = Unit {0}} usage_visit root 0).0

abbrev pub budget : ℕ → ℕ → ℕ → ℕ
budget disk_max_bytes used free =
    if ltb 0 disk_max_bytes
    then if leb disk_max_bytes used
      then 0
      else (let remaining = sub64 disk_max_bytes used in
          if ltb remaining free then remaining else free)
    else free

abbrev pub less_reserved : ℕ → ℕ → ℕ
less_reserved free reserved =
    if le_signed reserved 0
    then free
    else if le_signed free reserved
    then 0
    else sub64 free reserved

-- `free` is what FreeDiskSpace of the system returns, `none` its error.
unfoldable pub free_disk_after_reservations : ℕ → ℕ → Node → Option ℕ → Option ℕ
unfolding disk_usage
free_disk_after_reservations disk_max_bytes reserved root none = none
free_disk_after_reservations disk_max_bytes reserved root (some free) =
    some (less_reserved (budget disk_max_bytes (disk_usage root) free) reserved)

abbrev pub size_of_files : List Found → ℕ
size_of_files = sum_by (λ f. f.info.size)

fold-size :
    (s : ℕ) (fs : List Found)
    → s % word ≡ s
    → fold_files (λ _ i t. add64 t i.size) s fs ≡ (s + size_of_files fs) % word
unfolding fold_files
fold-size s [] h = omega arith
fold-size s (f ∷ fs) h = fold-size (add64 s f.info.size) fs (omega arith) ∙ omega arith

-- diskUsage is the sum of the sizes of all files that the walk reaches, as a uint64.
pub disk_usage_lem : (root : Node) → disk_usage root ≡ size_of_files (files_in [] root) % word
unfolding disk_usage
disk_usage_lem root =
    ap (λ r. r.0)
      (walk-fold_files {E = Unit {0}} usage_visit (λ _ i t. add64 t i.size)
        (λ p i s. unfold usage_visit in refl) (λ p n s. unfold usage_visit in refl)
        (λ p n s. unfold usage_visit in refl) (λ p n s. unfold usage_visit in refl) root 0)
    ∙ omega (arith, fold-size 0 (files_in [] root) refl)

-- What may still be claimed: the free space, at most the rest of the cap where there is one, less
-- what is reserved.
abbrev pub headroom : ℕ → ℕ → ℕ → ℕ
headroom disk_max_bytes used free =
    if ltb 0 disk_max_bytes then min free (disk_max_bytes - used) else free

-- For amounts that an int64 holds, the result is the headroom less the reserved bytes, or 0 where
-- more is reserved than there is room.
pub free_disk_lem :
    (disk_max_bytes reserved : ℕ) (root : Node) (free : ℕ)
    → disk_max_bytes < 2 ^ 63
    → reserved < 2 ^ 63
    → free < 2 ^ 63
    → free_disk_after_reservations disk_max_bytes reserved root (some free)
      ≡ some (headroom disk_max_bytes (size_of_files (files_in [] root) % word) free - reserved)
unfolding free_disk_after_reservations
free_disk_lem disk_max_bytes reserved root free m r f =
    rw disk_usage_lem (
      ap some (closed disk_max_bytes reserved (size_of_files (files_in [] root) % word) free m r f))
  where
    closed :
        (m r u f : ℕ)
        → m < 2 ^ 63
        → r < 2 ^ 63
        → f < 2 ^ 63
        → less_reserved (budget m u f) r ≡ headroom m u f - r
    closed m r u f hm hr hf = ground arith
