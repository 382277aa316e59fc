-- ===== src/Jobs/Runner/Retries.antt =====
-- A module that fails is not retried by its run: the row stays as it is until its lease ends.
