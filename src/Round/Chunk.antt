-- ===== src/Round/Chunk.antt =====
-- src/round/agent.ts: the chunks of one subtask, and the rows that they leave.
pub mod Env
pub mod Prepare
pub mod Execute
pub mod Rows
pub mod Prepared
pub mod Reported
pub mod Examples
