-- ===== src/Admin.antt =====
-- app/admin: the panel's sessions and its limit on login attempts.
pub mod RateLimit
pub mod Sessions
pub mod Rotation
pub mod Access
pub mod Accounts
pub mod Updates
pub mod Staffed
pub mod Signing
pub mod LastSuperadmin
pub mod Authorised
