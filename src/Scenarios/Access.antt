-- ===== src/Scenarios/Access.antt =====
-- The access theorems for a sales agent with one grant that counts and one that has expired.
use realesatecrm.Base.{ℕ, ◌≡◌, ◌↔◌, ◌⊎◌, refl, true, false, if◌then◌else◌, none, some, [], ◌∷◌, Any}
use realesatecrm.Core.Errors.{ok}
use realesatecrm.Security.Context.{RequestContext, global, tenant, contains}
use realesatecrm.Security.Permissions.{
  check_permission, resolve_tenant_scope, ensure_tenant_resource_access,
}
use realesatecrm.Security.Identity.{SecurityIdentity, context_of, validate_identity}
use realesatecrm.Security.Grants.{User, Role, identity_of}
use realesatecrm.Security.Access.{
  Gives, validate_identity-scope, resolve_tenant_scope-authenticated, ensure_access_iff,
  validate_identity-active, check_permission-granted,
}

abbrev sales_agent : Role
sales_agent = record {
  name = "sales_agent";
  is_active = true;
  is_system_role = true;
  permission_codes = "property_booking.read" ∷ "property_booking.create" ∷ [];
}

abbrev manager : Role
manager = record {
  name = "manager";
  is_active = true;
  is_system_role = true;
  permission_codes = "role.update" ∷ [];
}

abbrev pub agent : User
agent = record {
  id = 7;
  auth_user_id = some 70;
  tenant_id = some 1;
  status = "active";
  deleted_at = none;
  tenant_is_active = some true;
  tenant_deleted_at = none;
  user_roles =
      record { is_active = true; expires_at = some 1000; role = some manager }
      ∷ record { is_active = true; expires_at = none; role = some sales_agent }
      ∷ [];
}

abbrev pub agent_identity : SecurityIdentity
agent_identity = record {
  user_id = 7;
  auth_user_id = 70;
  tenant_id = some 1;
  status = "active";
  deleted_at = none;
  tenant_is_active = some true;
  tenant_deleted_at = none;
  role_names = "sales_agent" ∷ [];
  permission_codes = "property_booking.read" ∷ "property_booking.create" ∷ [];
  is_super_admin = false;
}

abbrev pub agent_context : RequestContext
agent_context = context_of agent_identity "sales_agent" (some 1) tenant

pub agent_loaded : identity_of 2000 agent ≡ some agent_identity
unfolding identity_of
agent_loaded = refl

pub agent_valid : validate_identity agent_identity ≡ ok agent_context
unfolding validate_identity
agent_valid = refl

agent_allowed : check_permission agent_context "property_booking.create" ≡ ok tt
unfolding check_permission contains
agent_allowed = refl

validate_identity-scope_example :
    ((agent_context.is_super_admin ≡ true)
      × (agent_context.scope ≡ global)
      × (agent_context.tenant_id ≡ none))
    ⊎ ((t : ℕ) × (agent_context.is_super_admin ≡ false)
        × (agent_context.scope ≡ tenant)
        × (agent_context.tenant_id ≡ some t))
validate_identity-scope_example = validate_identity-scope agent_identity agent_valid

resolve_tenant_scope-authenticated_example :
    resolve_tenant_scope agent_context (some 2)
    ≡ (if agent_context.is_super_admin then ok (some 2) else ok agent_context.tenant_id)
resolve_tenant_scope-authenticated_example =
    resolve_tenant_scope-authenticated agent_identity (some 2) agent_valid

ensure_access_iff_example : (ensure_tenant_resource_access agent_context (some 1) ≡ ok tt) ↔ (
    (agent_context.is_super_admin ≡ true)
    ⊎ ((t : ℕ) × (agent_context.tenant_id ≡ some t) × (some 1 ≡ some t)))
ensure_access_iff_example = ensure_access_iff agent_identity (some 1) agent_valid

validate_identity-active_example :
    (agent_identity.status ≡ "active")
    × (agent_identity.deleted_at ≡ none)
    × ((agent_context.is_super_admin ≡ true)
        ⊎ ((agent_identity.tenant_is_active ≡ some true)
            × (agent_identity.tenant_deleted_at ≡ none)))
validate_identity-active_example = validate_identity-active agent_identity agent_valid

check_permission-granted_example : Any (Gives 2000 "property_booking.create") agent.user_roles
check_permission-granted_example =
    check_permission-granted 2000 agent agent_identity agent_context "property_booking.create"
      agent_loaded agent_valid agent_allowed
