-- ===== src/A2a.antt =====
-- src/a2a: the delivery of a turn's terminal Task.
pub mod Deliver
