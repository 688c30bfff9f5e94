-- ===== src/Log.antt =====
-- The log files of the interposers (src/log_retention.c): which of them are kept, and how many bytes they take.
pub mod Retention
pub mod Runtime
