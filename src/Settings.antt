-- ===== src/Settings.antt =====
-- internal/settings.go: the configuration, its defaults and its sections.
pub mod Flags
pub mod Defaults
pub mod File
pub mod Sections
