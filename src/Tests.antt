-- ===== src/Tests.antt =====
-- Runs at concrete inputs.
pub mod Lists
pub mod Queues
pub mod Extras
pub mod Downloads
pub mod Slices
pub mod Settings
pub mod Media
pub mod Runs
pub mod Search
pub mod Health
pub mod Missing
pub mod Rejected
pub mod Status
pub mod Assets
pub mod Wanted
