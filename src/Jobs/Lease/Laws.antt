-- ===== src/Jobs/Lease/Laws.antt =====
-- What the lease manager may do to a job.
