-- ===== src/Jobs.antt =====
-- The life of a job: the `jobs` table, its scheduler, its leases and the runner's finalisation.
pub mod Table
pub mod Claim
pub mod Finalise
pub mod Lease
pub mod Runner
pub mod History
mod Tests
