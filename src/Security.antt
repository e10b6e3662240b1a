-- ===== src/Security.antt =====
-- Who may do what: backend/app/users/service.py (the authenticated identity), backend/app/auth/service.py,
-- backend/app/core/request_context.py and backend/app/core/permissions.py.
pub mod Context
pub mod Permissions
pub mod Identity
pub mod Grants
pub mod Access
