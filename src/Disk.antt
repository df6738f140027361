-- ===== src/Disk.antt =====
-- services/disk_reserve_sweep.go: the reservations of disk space and the sweep of orphans.
pub mod Reserve
pub mod Free
pub mod Sweep
mod Tests
