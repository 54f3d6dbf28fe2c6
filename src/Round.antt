-- ===== src/Round.antt =====
-- src/round: one round of the main agent, and the Workflow that runs rounds in a loop.
pub mod Render
pub mod Turn
pub mod Agent
pub mod Chunk
pub mod Workflow
