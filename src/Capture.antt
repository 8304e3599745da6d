-- ===== src/Capture.antt =====
-- src/local_recall/capture/adaptive.py: when a screenshot is due, and which frames are worth keeping.
pub mod Adaptive
pub mod Fingerprint
pub mod Flow
pub mod Bounds
pub mod Total
pub mod Coalescing
mod Tests
