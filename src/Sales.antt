-- ===== src/Sales.antt =====
-- backend/app/sales: the sale of a property, the transfer of its ownership, and payments.
pub mod Repository
pub mod Service
pub mod Steps
pub mod Transaction
pub mod Atomic
pub mod Ledger
pub mod Once
pub mod Payments
