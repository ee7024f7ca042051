-- ===== src/Pipeline/Skips.antt =====
-- When the performance lane of a job is skipped.
