-- ===== src/Disk/Reserve.antt =====
-- services/disk_reserve_sweep.go: ReserveDisk and ReleaseDisk. Each is two atomic parts: the update
-- of the map under its mutex, then the atomic addition to the counter; `Ledger` runs the parts one
-- after the other, and `Interleaving` lets the parts of several calls mix.
pub mod Ledger
pub mod Interleaving
use loon_agent.Prelude.{
  ℕ, Bool, true, false, Option, none, some, Bytes, add64, sub64, if◌then◌else◌,
}
use loon_agent.Dict.{Dict, get, put, remove, empty}

pub record Reservations : Type 0 where
  pub disk_reserved : ℕ  -- int64
  pub by_job : Dict ℕ  -- int64

abbrev pub no_reservations : Reservations
no_reservations = record { disk_reserved = 0; by_job = empty }

abbrev pub or_zero : Option ℕ → ℕ
or_zero none = 0
or_zero (some n) = n

-- The locked part of ReserveDisk; the result is `delta`, which the counter has yet to get.
unfoldable pub claim : Dict ℕ → Bytes → ℕ → Dict ℕ × ℕ
unfolding put get
claim m job reserve =
    let previous = or_zero (get m job) in (put m job reserve, sub64 reserve previous)

-- The locked part of ReleaseDisk; there is nothing to add where the job has no reservation.
unfoldable pub disclaim : Dict ℕ → Bytes → Dict ℕ × Option ℕ
unfolding remove get
disclaim m job = elim (get m job) [
  | none ↦ (m, none)
  | some reserve ↦ (remove m job, some (sub64 0 reserve))
]

-- `scaled` is `int64(float64(torrentBytes) * DiskMultiplier)`.
module _ (scaled : ℕ → ℕ) where
  unfoldable pub reserve_disk : Bytes → ℕ → Reservations → Reservations
  unfolding claim
  reserve_disk job torrent_bytes s =
      let (m, delta) = claim s.by_job job (scaled torrent_bytes) in
      record { disk_reserved = add64 s.disk_reserved delta; by_job = m }

unfoldable pub release_disk : Bytes → Reservations → Reservations
unfolding disclaim
release_disk job s =
    let (m, back) = disclaim s.by_job job in
    elim back [
      | none ↦ record s { by_job = m }
      | some delta ↦ record { disk_reserved = add64 s.disk_reserved delta; by_job = m }
    ]
