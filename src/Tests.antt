-- ===== src/Tests.antt =====
-- Runs on concrete inputs, and the theorems at inputs that meet their hypotheses.
mod Subscriptions
mod Referrals
mod Admin
mod Payments
mod Favourites
mod Searches
mod Notifications
mod Monitoring
mod Reports
mod Restaurants
mod Bot
mod Accounts
mod Snapshot
mod Locks
mod Client
