-- ===== src/Disk/Reserve/Ledger.antt =====
-- services/disk_reserve_sweep.go: the counter is the sum of the reservations, as an int64.
use loon_agent.Prelude.{ℕ, ◌+◌, ◌%◌, ◌<◌, ◌≡◌, refl, none, [], ◌∷◌, arith, Bytes, equal_iff, word}
use loon_agent.Dict.{Dict, get, put, remove, get-put, get-remove}
use loon_agent.Disk.Reserve.{Reservations, or_zero, claim, disclaim, reserve_disk, release_disk}

abbrev pub total : Dict ℕ → ℕ
total [] = 0
total ((k, v) ∷ m) = v + total m

-- No key stands twice, and every value is a 64-bit pattern.
abbrev pub IsMap : Dict ℕ → Type 0
IsMap [] = Unit
IsMap ((k, v) ∷ m) = (get m k ≡ none) × (v < word) × IsMap m

pub get-lt-word : (m : Dict ℕ) (k : Bytes) → IsMap m → or_zero (get m k) < word
unfolding get
get-lt-word [] k h = omega arith
get-lt-word ((j, w) ∷ m) k h = ground (arith, get-lt-word m k)

pub put-IsMap : (m : Dict ℕ) (k : Bytes) (v : ℕ) → v < word → IsMap m → IsMap (put m k v)
unfolding put get
put-IsMap [] k v lt h = (refl, lt, tt)
put-IsMap ((j, w) ∷ m) k v lt h =
    ground (arith, put-IsMap m k v, get-put m k v j, equal_iff j k, equal_iff k j)

pub total-put :
    (m : Dict ℕ) (k : Bytes) (v : ℕ) → total (put m k v) + or_zero (get m k) ≡ total m + v
unfolding put get
total-put [] k v = omega arith
total-put ((j, w) ∷ m) k v = ground (arith, total-put m k v)

pub remove-none : (m : Dict ℕ) (k : Bytes) → get m k ≡ none → remove m k ≡ m
unfolding remove get
remove-none [] k h = refl
remove-none ((j, w) ∷ m) k h = ground (arith, remove-none m k)

pub remove-IsMap : (m : Dict ℕ) (k : Bytes) → IsMap m → IsMap (remove m k)
unfolding remove
remove-IsMap [] k h = tt
remove-IsMap ((j, w) ∷ m) k h = ground (arith, remove-IsMap m k, get-remove m k j)

pub total-remove :
    (m : Dict ℕ) (k : Bytes) → IsMap m → total (remove m k) + or_zero (get m k) ≡ total m
unfolding remove get
total-remove [] k h = omega arith
total-remove ((j, w) ∷ m) k h = ground (arith, total-remove m k, remove-none m k, equal_iff j k)

-- The counter is the sum of the values of the map, as an int64.
pub record IsBalanced (s : Reservations) : Type 0 where
  pub is_map : IsMap s.by_job
  pub counter : s.disk_reserved ≡ total s.by_job % word

module _ (scaled : ℕ → ℕ) where
  -- If no job stands twice in the map and the counter is the sum of its values, as an int64, then
  -- so it is after ReserveDisk, also over an earlier claim of the job, where the scaled size fits
  -- 64 bits.
  pub reserve_disk-IsBalanced :
      (job : Bytes) (torrent_bytes : ℕ) (s : Reservations)
      → scaled torrent_bytes < word
      → IsBalanced s
      → IsBalanced (reserve_disk scaled job torrent_bytes s)
  unfolding reserve_disk claim
  reserve_disk-IsBalanced job torrent_bytes s lt h = record {
    is_map = put-IsMap s.by_job job (scaled torrent_bytes) lt h.is_map;
    counter = omega (
      arith,
      h.counter,
      total-put s.by_job job (scaled torrent_bytes),
      get-lt-word s.by_job job h.is_map,
    );
  }

-- If no job stands twice in the map and the counter is the sum of its values, as an int64, then so
-- it is after ReleaseDisk, whether or not the job has a claim.
pub release_disk-IsBalanced :
    (job : Bytes) (s : Reservations) → IsBalanced s → IsBalanced (release_disk job s)
unfolding release_disk disclaim
release_disk-IsBalanced job s h =
    ground (
      arith,
      remove-IsMap s.by_job job,
      total-remove s.by_job job,
      get-lt-word s.by_job job h.is_map,
    )
