-- ===== src/Round/Workflow.antt =====
-- src/round/workflow.ts: the durable controller of one Task, a loop of rounds.
pub mod Agent
pub mod Branches
pub mod Loop
pub mod Handle
pub mod Ends
pub mod Cost
pub mod Delivery
pub mod Terminal
pub mod Examples
