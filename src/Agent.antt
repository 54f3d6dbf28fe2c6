-- ===== src/Agent.antt =====
-- src/agent: the turn budget, the Session and its message ids, and the control tools.
pub mod Budget
pub mod History
pub mod Session
pub mod Control
pub mod ControlTools
pub mod Examples
