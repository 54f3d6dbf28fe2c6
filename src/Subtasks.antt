-- ===== src/Subtasks.antt =====
-- src/subtasks: the records, and the resolution of a `delegate` call.
pub mod Types
pub mod Decomposition
