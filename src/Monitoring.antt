-- ===== src/Monitoring.antt =====
-- app/monitoring: the list of a search's listings that is shown on Telegram.
pub mod Groups
pub mod Display
pub mod Sync
pub mod Counting
pub mod Stages
pub mod Swap
pub mod Replacing
pub mod OneList
pub mod Snapshot
pub mod Unique
pub mod Kept
pub mod Fingerprint
pub mod Locks
pub mod Exclusion
