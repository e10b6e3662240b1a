-- ===== src/Routers/Guards.antt =====
-- What every endpoint does first: backend/app/auth/dependencies.py, `require_permission`, and the
-- tenant that the routers take from the request's context.
use realesatecrm.Base.{ℕ, String, Option, none, some}
use realesatecrm.Core.Errors.{Result, raised, value_error}
use realesatecrm.Db.Action.{Action, pure}
use realesatecrm.Security.Context.{RequestContext}
use realesatecrm.Security.Permissions.{
  check_permission, resolve_tenant_scope, ensure_tenant_resource_access,
}

-- A plain call inside a coroutine.
abbrev pub lift : {A : Type 0} → Result A → Action A
lift r db = (r, db)

unfoldable pub require_permission : String → RequestContext → Action (Unit {0})
require_permission code context = lift (check_permission context code)

-- `resolve_tenant_scope(context)`
unfoldable pub tenant_scope : RequestContext → Action (Option ℕ)
tenant_scope context = lift (resolve_tenant_scope context none)

-- `if tenant_id is None: raise ValueError(…)`
unfoldable pub some_tenant : Option ℕ → Action ℕ
some_tenant none db = (raised value_error, db)
some_tenant (some t) db = pure t db

-- `ensure_tenant_resource_access(context, row.tenant_id)`
unfoldable pub ensure_access : RequestContext → ℕ → Action (Unit {0})
ensure_access context resource = lift (ensure_tenant_resource_access context (some resource))
