-- ===== src/Roles/Service.antt =====
-- backend/app/roles/service.py and the endpoints of backend/app/roles/router.py that write.
use realesatecrm.Base.{
  ℕ, String, false, not, ◌&&◌, ltb, none, some, List, [], ◌∷◌, select, length, if◌then◌else◌,
}
use realesatecrm.Core.Errors.{AppError, clean_error}
use realesatecrm.Db.Action.{Action, Engine, ◌>>=◌, ◌>>◌, raise_if, or_raise, atomic, except_dbapi}
use realesatecrm.Security.Context.{RequestContext, contains}
use realesatecrm.Roles.Repository as Repository
use realesatecrm.Roles.Repository.{
  RoleCreate, RoleUpdate, RoleView, get_permission_ids, has_key, values,
}

abbrev pub role_not_found : AppError
role_not_found = AppError.not_found "ROLE_NOT_FOUND"

abbrev immutable : AppError
immutable = AppError.forbidden "SYSTEM_ROLE_IMMUTABLE"

unfoldable pub get_role : ℕ → ℕ → Action RoleView
unfolding Repository.get_by_id
get_role t id = do row ← Repository.get_by_id t id; or_raise row role_not_found

-- `list(dict.fromkeys(codes))`, after the codes that have been seen.
unfoldable pub dedupe : List String → List String → List String
unfolding contains
dedupe seen [] = []
dedupe seen (c ∷ cs) =
    let later = dedupe seen cs in
    let rest = dedupe (c ∷ seen) cs in if contains c seen then later else c ∷ rest

abbrev pub deactivation : RoleUpdate
deactivation = record { display_name = none; description = none; is_active = some (some false) }

module _ (eng : Engine) where
  unfoldable pub create_role : ℕ → RoleCreate → Action RoleView
  unfolding Repository.create
  create_role t d = except_dbapi (Repository.create eng t d) clean_error

  unfoldable pub update_role : ℕ → ℕ → RoleUpdate → Action RoleView
  unfolding get_role Repository.update
  update_role t id d = do
    existing ← get_role t id
    raise_if existing.role.is_system_role immutable
    row ← except_dbapi (Repository.update eng t id d) clean_error
    or_raise row role_not_found

  unfoldable pub deactivate_role : ℕ → ℕ → Action RoleView
  unfolding get_role Repository.update
  deactivate_role t id = do
    existing ← get_role t id
    raise_if existing.role.is_system_role immutable
    raise_if (ltb 0 existing.assignee_count) (AppError.conflict "ROLE_HAS_ACTIVE_ASSIGNEES")
    row ← Repository.update eng t id deactivation
    or_raise row role_not_found

  unfoldable pub replace_permissions : RequestContext → ℕ → List String → Action RoleView
  unfolding get_role dedupe get_permission_ids Repository.replace_permissions contains has_key
  replace_permissions context id codes = do
    t ← or_raise context.tenant_id (AppError.validation "MISSING_TENANT_SCOPE")
    existing ← get_role t id
    raise_if existing.role.is_system_role immutable
    let requested = dedupe [] codes
    resolved ← get_permission_ids requested
    let unknown = select (λ c. not (has_key c resolved)) requested
    raise_if (ltb 0 (length unknown)) (AppError.validation "UNKNOWN_PERMISSION_CODE")
    let not_held = select (λ c. not (contains c context.permissions)) requested
    raise_if (not context.is_super_admin && ltb 0 (length not_held))
        (AppError.forbidden "PERMISSION_ESCALATION_BLOCKED")
    done ← atomic (Repository.replace_permissions eng t id (values resolved))
    raise_if (not done) role_not_found
    get_role t id
