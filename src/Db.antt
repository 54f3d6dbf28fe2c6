-- ===== src/Db.antt =====
-- src/db/models: the agent's two tables.
pub mod Tasks
pub mod Subtasks
