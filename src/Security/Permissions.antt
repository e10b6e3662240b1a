-- ===== src/Security/Permissions.antt =====
-- backend/app/core/permissions.py: the checks on a request's context. A permission is its code.
use realesatecrm.Base.{ℕ, String, Bool, ◌&&◌, not, ◌==◌, str_eq, Option, none, some, if◌then◌else◌}
use realesatecrm.Core.Errors.{AppError, Raised, Result, ok, raised, app}
use realesatecrm.Security.Context.{RequestContext, SecurityScope, global, tenant, contains}

abbrev pub forbidden : String → Raised
forbidden code = app (AppError.forbidden code)

unfoldable pub has_permission : RequestContext → String → Bool
has_permission context code = contains code context.permissions

unfoldable pub check_permission : RequestContext → String → Result (Unit {0})
check_permission context code =
    if not (contains code context.permissions)
    then raised (forbidden "INSUFFICIENT_PERMISSIONS")
    else ok tt

unfoldable pub check_super_admin : RequestContext → Result (Unit {0})
check_super_admin context =
    if not context.is_super_admin then raised (forbidden "INSUFFICIENT_PERMISSIONS") else ok tt

unfoldable pub check_tenant_admin : RequestContext → Result (Unit {0})
check_tenant_admin context =
    if not (str_eq context.role "admin")
    then raised (forbidden "INSUFFICIENT_PERMISSIONS")
    else ok tt

-- The tenant to use where the context is bound to one.
unfoldable pub own_tenant : Option ℕ → Result (Option ℕ)
own_tenant none = raised (forbidden "MISSING_TENANT_SCOPE")
own_tenant (some t) = ok (some t)

-- `none` as a result is no filter by tenant.
unfoldable pub resolve_tenant_scope : RequestContext → Option ℕ → Result (Option ℕ)
unfolding own_tenant
resolve_tenant_scope context requested = elim context.scope [
  | tenant ↦ own_tenant context.tenant_id
  | global ↦ ok requested
]

abbrev pub is_global : SecurityScope → Bool
is_global global = Bool.true
is_global tenant = Bool.false

abbrev pub hidden : Raised
hidden = app (AppError.not_found "NOT_FOUND")

-- The checks of `ensure_tenant_resource_access` for a caller that is no super admin.
unfoldable pub same_tenant : Option ℕ → Option ℕ → Result (Unit {0})
same_tenant (some own) (some resource) = if not (resource == own) then raised hidden else ok tt
same_tenant own resource = raised hidden

unfoldable pub ensure_tenant_resource_access : RequestContext → Option ℕ → Result (Unit {0})
unfolding same_tenant
ensure_tenant_resource_access context resource =
    if is_global context.scope && context.is_super_admin
    then ok tt
    else same_tenant context.tenant_id resource
