-- ===== src/Store.antt =====
-- internal/bbolt.go and internal/redis.go: the store of byte strings, hashes and lists, on disk and
-- in memory.
pub mod Outcome
pub mod Spec
pub mod Commands
pub mod Hashes
pub mod Keyed
pub mod Keys
pub mod Range
pub mod Recent
pub mod Log
pub mod Rewrite
pub mod Bolt
pub mod Mem
pub mod Client
