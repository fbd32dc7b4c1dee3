-- ===== src/Referrals.antt =====
-- app/referrals/service.py: referral programs, the ledger of commissions, and payouts.
pub mod Tables
pub mod Programs
pub mod LoginTokens
pub mod Commissions
pub mod Payouts
pub mod Allocation
pub mod Approval
pub mod Soundness
pub mod Balance
pub mod Invariant
pub mod Earning
pub mod Steps
pub mod Upkeep
pub mod History
pub mod Once
pub mod Stuck
