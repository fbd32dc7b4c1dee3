-- ===== src/Models.antt =====
-- app/db/models.py: the rows that the services read and write, a child for each group of tables.
pub mod Accounts
pub mod Billing
pub mod Housing
pub mod Favourites
pub mod Referrals
pub mod Restaurants
