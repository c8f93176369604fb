-- ===== src/Downloads.antt =====
-- The download queue: internal/download_queue.go and the queue part of internal/youtube.go.
pub mod Items
pub mod Changes
pub mod Worker
