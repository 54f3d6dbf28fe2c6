-- ===== src/Alarm.antt =====
-- src/alarm: many deadlines over the one alarm of a Durable Object.
pub mod Model
pub mod Keys
pub mod Armed
pub mod Refines
pub mod Examples
