-- ===== src/Pipeline.antt =====
-- src/local_recall/pipeline: the bounded pipeline between capture and the workers.
pub mod Credits
pub mod Cancellation
pub mod Ingress
pub mod Tests
