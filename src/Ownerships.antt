-- ===== src/Ownerships.antt =====
-- backend/app/ownerships: the ownership ledger after the sale, co-owners, and resale listings.
pub mod Repository
pub mod Service
pub mod Listings
