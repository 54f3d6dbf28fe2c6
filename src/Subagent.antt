-- ===== src/Subagent.antt =====
-- src/subagent: the child that executes one Subtask, in resumable chunks.
pub mod Messages
pub mod Window
pub mod Elide
pub mod Retention
pub mod Prompt
pub mod Env
pub mod Attempt
pub mod Chunk
pub mod Reading
pub mod Ends
pub mod Stages
pub mod Spend
pub mod Rolling
pub mod Execution
pub mod Finish
pub mod Facet
pub mod Replay
pub mod Durable
pub mod Examples
