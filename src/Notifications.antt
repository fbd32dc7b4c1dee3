-- ===== src/Notifications.antt =====
-- app/notifications: the listings of a completed snapshot.
pub mod Snapshot
pub mod Linking
pub mod Stored
pub mod Availability
pub mod Items
