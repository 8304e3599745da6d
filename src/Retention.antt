-- ===== src/Retention.antt =====
-- src/local_recall/retention: what is deleted, and when.
pub mod Rules
pub mod Planner
pub mod Engine
pub mod Tests
