-- ===== src/Subscriptions.antt =====
-- app/subscriptions/service.py: plans, the season, and the entitlements of a user.
pub mod Plans
pub mod Season
pub mod Entitlements
pub mod Activation
pub mod Access
pub mod Renewal
pub mod TrialOnce
