-- ===== src/Lifecycle.antt =====
-- The capture lifecycle: src/local_recall/domain/lifecycle.py and src/local_recall/lifecycle/.
pub mod State
pub mod Gate
pub mod Messages
pub mod Workers
pub mod Actor
pub mod Tests
