-- ===== src/Roles.antt =====
-- The roles that a tenant defines and the permissions that they grant: backend/app/roles.
pub mod Repository
pub mod Service
pub mod Steps
pub mod Endpoints
pub mod Grants
pub mod History
pub mod Protected
pub mod Asked
pub mod Escalation
pub mod InUse
