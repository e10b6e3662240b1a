-- ===== src/Scenarios/Roles.antt =====
-- The editing of roles in a tenant whose administrator holds one permission.
use realesatecrm.Base.{
  ◌≡◌, refl, inl, true, false, ◌||◌, none, some, [], ◌∷◌, codes, ltb, length, select, ◌==◌, arith,
  if◌then◌else◌,
}
use realesatecrm.Db.Rows.{Db, RoleRow}
use realesatecrm.Db.Action.{Engine, atomic}
use realesatecrm.Security.Context.{RequestContext, tenant, contains}
use realesatecrm.Roles.Repository.{grants_of, codes_of_role, assignees}
use realesatecrm.Roles.Endpoints.{replace_role_permissions}
use realesatecrm.Roles.Service.{replace_permissions}
use realesatecrm.Routers.Guards.{require_permission}
use realesatecrm.Security.Permissions.{check_permission}
use realesatecrm.Roles.History.{untouched, edit, replace, deactivate, serve, FreshRole}
use realesatecrm.Roles.Protected.{SameRole, Edits-SameRole}
use realesatecrm.Roles.Escalation.{holds, Ordinary, Lacks, Edits-Lacks}
use realesatecrm.Roles.Asked.{Keyed}
use realesatecrm.Roles.InUse.{deactivate_role_refused}
use realesatecrm.Scenarios.Town.{calm, town, some_error}

abbrev system_admin : RoleRow
system_admin = record {
  id = 1;
  tenant_id = none;
  name = codes "admin";
  display_name = codes "Admin";
  description = none;
  is_system_role = true;
  is_active = true;
  updated_at = 1;
}

abbrev junior : RoleRow
junior = record {
  id = 7;
  tenant_id = some 1;
  name = codes "junior";
  display_name = codes "Junior";
  description = none;
  is_system_role = false;
  is_active = true;
  updated_at = 2;
}

abbrev office : Db
office = record town {
  roles = junior ∷ system_admin ∷ [];
  permissions =
      record { id = 100; code = "role.update" } ∷ record { id = 101; code = "audit.read" } ∷ [];
  role_permissions = record { role_id = 1; permission_id = 100 } ∷ [];
  user_roles = record { user_id = 5; role_id = 7; is_active = true } ∷ [];
}

abbrev admin : RequestContext
admin = record {
  user_id = 5;
  auth_user_id = 6;
  tenant_id = some 1;
  role = "admin";
  permissions = "role.update" ∷ [];
  is_super_admin = false;
  scope = tenant;
}

-- It refuses a role under an id that is taken.
abbrev keyed_engine : Engine
keyed_engine = record calm {
  fault = λ s db.
      if ltb 0 (length (select (λ r. r.id == 900) db.roles)) || ltb 0 (length (grants_of 900 db))
      then some some_error
      else none;
}

keyed_engine-FreshRole : FreshRole keyed_engine
unfolding FreshRole
keyed_engine-FreshRole db free = ground arith

abbrev promoted : Db
promoted = serve keyed_engine admin (replace 7 ("role.update" ∷ [])) office

promotion : codes_of_role 7 promoted ≡ "role.update" ∷ []
unfolding serve codes_of_role replace_role_permissions require_permission check_permission contains
    replace_permissions atomic
promotion = refl

office-Keyed : Keyed office
office-Keyed = record { one_role = λ i. ground arith; one_permission = (refl, (refl, tt)) }

admin-Ordinary : Ordinary admin office
unfolding holds contains
admin-Ordinary = (refl, λ t code own e. (1, e))

office-Lacks : Lacks 1 "audit.read" office
unfolding holds
office-Lacks i = ground arith

Edits-SameRole_example : SameRole 1 office promoted
Edits-SameRole_example =
    Edits-SameRole 1 1
      (edit keyed_engine admin (replace 7 ("role.update" ∷ [])) untouched keyed_engine-FreshRole
        refl)
      (λ h. cc) (inl refl, tt)

Edits-Lacks_example : Lacks 1 "audit.read" promoted
Edits-Lacks_example =
    Edits-Lacks 1 "audit.read"
      (edit keyed_engine admin (replace 7 ("role.update" ∷ [])) untouched keyed_engine-FreshRole
        admin-Ordinary)
      office-Keyed office-Lacks

deactivate_role_refused_example : serve keyed_engine admin (deactivate 7) office ≡ office
unfolding assignees
deactivate_role_refused_example = deactivate_role_refused keyed_engine admin 7 office (omega arith)
