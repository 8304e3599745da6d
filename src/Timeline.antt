-- ===== src/Timeline.antt =====
-- src/local_recall/timeline: the deletion of selected records, its journal and its recovery.
pub mod Deletion
pub mod Scope
mod Codecs
mod Worlds
mod Tests
