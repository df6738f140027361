-- ===== src/Offline.antt =====
-- services/network_offline_watcher.go and network_offline_processor.go: the offline pipeline, from
-- the watch folders to the jobs, and the run of a job.
pub mod Watcher
pub mod Rounds
pub mod Scans
pub mod Names
pub mod Run
pub mod Finish
mod Tests
