-- ===== src/Db/Subtasks.antt =====
-- src/db/models/subtasks.ts: the table of subtasks, its guarded transitions and what they promise.
pub mod Table
pub mod Model
pub mod Settled
pub mod Rounds
pub mod Examples
