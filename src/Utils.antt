-- ===== src/Utils.antt =====
-- utils/: retrying with backoff, and the pacing of requests.
pub mod Transient
pub mod Retry
pub mod RetryAfter
pub mod Scheduler
