-- ===== src/Db/Tasks.antt =====
-- src/db/models/tasks.ts: the table of A2A tasks, its state machine and what that promises.
pub mod Table
pub mod Model
pub mod Moves
pub mod Forever
pub mod Promises
pub mod Examples
