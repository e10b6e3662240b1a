-- ===== src/Roles/Endpoints.antt =====
-- backend/app/roles/router.py: the endpoints that write.
use realesatecrm.Base.{ℕ, String, List}
use realesatecrm.Db.Action.{Action, Engine, ◌>>=◌, ◌>>◌}
use realesatecrm.Security.Context.{RequestContext}
use realesatecrm.Roles.Repository.{RoleCreate, RoleUpdate, RoleView}
use realesatecrm.Roles.Service as Service
use realesatecrm.Routers.Guards.{require_permission, tenant_scope, some_tenant}

module _ (eng : Engine) where
  unfoldable pub create_role : RoleCreate → RequestContext → Action RoleView
  create_role d context = do
    require_permission "role.create" context
    scope ← tenant_scope context
    t ← some_tenant scope
    Service.create_role eng t d

  unfoldable pub update_role : ℕ → RoleUpdate → RequestContext → Action RoleView
  update_role id d context = do
    require_permission "role.update" context
    scope ← tenant_scope context
    t ← some_tenant scope
    Service.update_role eng t id d

  unfoldable pub deactivate_role : ℕ → RequestContext → Action RoleView
  deactivate_role id context = do
    require_permission "role.delete" context
    scope ← tenant_scope context
    t ← some_tenant scope
    Service.deactivate_role eng t id

  unfoldable pub replace_role_permissions : ℕ → List String → RequestContext → Action RoleView
  replace_role_permissions id codes context = do
    require_permission "role.update" context
    Service.replace_permissions eng context id codes
