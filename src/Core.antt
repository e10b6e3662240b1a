-- ===== src/Core.antt =====
-- backend/app/core and backend/app/db: exceptions, database errors, request context, permissions.
pub mod Errors
