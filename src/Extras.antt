-- ===== src/Extras.antt =====
-- The extras: internal/extras.go and the merges of internal/media.go.
pub mod Entries
pub mod Collection
pub mod Merge
pub mod Missing
pub mod Wanted
pub mod Rejected
