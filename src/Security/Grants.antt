-- ===== src/Security/Grants.antt =====
-- backend/app/users/repository.py, `get_security_identity_by_auth_user_id`: what the role grants of a
-- user add up to.
use realesatecrm.Base.{
  ℕ, String, Bool, false, not, ◌&&◌, ◌||◌, leb, str_eq, Option, none, some, List, [], ◌∷◌, ◌++◌,
  if◌then◌else◌,
}
use realesatecrm.Security.Identity.{SecurityIdentity}

-- public.roles with its permissions' codes.
pub record Role : Type 0 where
  pub name : String
  pub is_active : Bool
  pub is_system_role : Bool
  pub permission_codes : List String

-- public.user_roles
pub record UserRole : Type 0 where
  pub is_active : Bool
  pub expires_at : Option ℕ
  pub role : Option Role

-- public.users with its tenant.
pub record User : Type 0 where
  pub id : ℕ
  pub auth_user_id : Option ℕ
  pub tenant_id : Option ℕ
  pub status : String
  pub deleted_at : Option ℕ
  pub tenant_is_active : Option Bool
  pub tenant_deleted_at : Option ℕ
  pub user_roles : List UserRole

abbrev pub has_expired : ℕ → Option ℕ → Bool
has_expired now none = false
has_expired now (some t) = leb t now

abbrev pub active_role : Option Role → Option Role
active_role none = none
active_role (some r) = if r.is_active then some r else none

-- The role of a grant that counts: the loop's three `continue`s.
unfoldable pub granted_role : ℕ → UserRole → Option Role
granted_role now g =
    if not g.is_active
    then none
    else if has_expired now g.expires_at
    then none
    else active_role g.role

unfoldable pub granted_roles : ℕ → List UserRole → List Role
unfolding granted_role
granted_roles now [] = []
granted_roles now (g ∷ gs) =
    let rest = granted_roles now gs in elim (granted_role now g) [ none ↦ rest | some r ↦ r ∷ rest ]

unfoldable pub names_of : List Role → List String
names_of [] = []
names_of (r ∷ rs) = r.name ∷ names_of rs

unfoldable pub codes_of : List Role → List String
codes_of [] = []
codes_of (r ∷ rs) = r.permission_codes ++ codes_of rs

unfoldable pub any_super_admin : List Role → Bool
any_super_admin [] = false
any_super_admin (r ∷ rs) = (str_eq r.name "super_admin" && r.is_system_role) || any_super_admin rs

unfoldable pub identity_of : ℕ → User → Option SecurityIdentity
unfolding granted_roles names_of codes_of any_super_admin
identity_of now u = elim u.auth_user_id [
  | none ↦ none
  | some auth ↦
      let roles = granted_roles now u.user_roles in
      some (record {
        user_id = u.id;
        auth_user_id = auth;
        tenant_id = u.tenant_id;
        status = u.status;
        deleted_at = u.deleted_at;
        tenant_is_active = u.tenant_is_active;
        tenant_deleted_at = u.tenant_deleted_at;
        role_names = names_of roles;
        permission_codes = codes_of roles;
        is_super_admin = any_super_admin roles;
      })
]
