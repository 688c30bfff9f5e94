-- ===== src/ThreadCpu.antt =====
-- The thread CPU quota: the request with its worker (src/thread_cpu_quota.c), and what the layer and the
-- controller tell each other (src/thread_cpu_protocol.c).
pub mod Protocol
pub mod Quota
