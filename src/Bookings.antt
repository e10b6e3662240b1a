-- ===== src/Bookings.antt =====
-- backend/app/bookings: token bookings of a property.
pub mod Repository
pub mod Service
pub mod Lifecycle
