-- ===== src/Job.antt =====
-- src/job: a long job that a Durable Object owns through its alarm.
pub mod Lifecycle
pub mod Arming
pub mod Latch
pub mod Examples
