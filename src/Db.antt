-- ===== src/Db.antt =====
-- The database as the repositories see it: rows, statements, transactions and what PostgreSQL
-- decides.
pub mod Rows
pub mod Action
pub mod Table
pub mod Inversion
pub mod Reads
pub mod Checks
pub mod Growth
