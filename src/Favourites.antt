-- ===== src/Favourites.antt =====
-- app/favourites: saved listings and the outbox of their changes.
pub mod Service
pub mod Consistent
pub mod Isolation
pub mod Others
pub mod Each
pub mod Told
