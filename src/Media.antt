-- ===== src/Media.antt =====
-- The media of Radarr and Sonarr: internal/media.go.
pub mod Items
pub mod Index
