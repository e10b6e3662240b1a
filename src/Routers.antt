-- ===== src/Routers.antt =====
-- The endpoints of backend/app/bookings/router.py, backend/app/sales/router.py and
-- backend/app/ownerships/router.py, for a request whose context is given.
pub mod Guards
pub mod Bookings
pub mod Sales
pub mod Ownerships
pub mod Call
pub mod Calls
pub mod Isolation
