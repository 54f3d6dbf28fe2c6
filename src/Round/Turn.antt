-- ===== src/Round/Turn.antt =====
-- src/round/turn.ts: one round of the main agent, a single inference over its Session that ends in an
-- answer or in a delegation.
pub mod Env
pub mod Ending
pub mod Join
pub mod Ladder
pub mod Spend
pub mod Rescue
pub mod Overdue
pub mod Final
pub mod Examples
