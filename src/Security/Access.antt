-- ===== src/Security/Access.antt =====
-- What the contexts of authenticated users may reach.
use realesatecrm.Base.{
  ℕ, ◌≡◌, ◌∙◌, ◌↔◌, subst, ◌⊎◌, inl, inr, String, true, false, str_eq_iff, Option, none, some, List,
  [], ◌∷◌, ◌++◌, arith, Any, Option-cases, if◌then◌else◌,
}
use realesatecrm.Core.Errors.{ok}
use realesatecrm.Security.Context.{RequestContext, global, tenant, contains}
use realesatecrm.Security.Permissions.{
  check_permission, resolve_tenant_scope, ensure_tenant_resource_access,
}
use realesatecrm.Security.Identity.{SecurityIdentity, validate_identity}
use realesatecrm.Security.Grants.{
  User, UserRole, Role, granted_role, granted_roles, codes_of, identity_of, has_expired,
}

-- An authenticated context is of one of two kinds: a super admin with no tenant and global scope,
-- or a user of one tenant with that tenant's scope.
pub validate_identity-scope :
    (i : SecurityIdentity) {c : RequestContext}
    → validate_identity i ≡ ok c
    → ((c.is_super_admin ≡ true) × (c.scope ≡ global) × (c.tenant_id ≡ none))
      ⊎ ((t : ℕ) × (c.is_super_admin ≡ false) × (c.scope ≡ tenant) × (c.tenant_id ≡ some t))
unfolding validate_identity
validate_identity-scope i h = elim (Option-cases i.tenant_id) [
  | inl e ↦ inl (ground arith)
  | inr (t, e) ↦ inr (t, ground arith, ground arith, ground arith)
]

-- The tenant filter of an authenticated request is the user's own tenant, whatever the client asks
-- for; only a super admin's request is filtered as it asks.
pub resolve_tenant_scope-authenticated :
    (i : SecurityIdentity) (requested : Option ℕ) {c : RequestContext}
    → validate_identity i ≡ ok c
    → resolve_tenant_scope c requested ≡ (if c.is_super_admin then ok requested else ok c.tenant_id)
unfolding resolve_tenant_scope
resolve_tenant_scope-authenticated i requested h = ground (arith, validate_identity-scope i h)

-- An authenticated request reaches a resource exactly if it comes from a super admin or the
-- resource is owned by the user's tenant.
pub ensure_access_iff :
    (i : SecurityIdentity) (resource : Option ℕ) {c : RequestContext}
    → validate_identity i ≡ ok c
    → (ensure_tenant_resource_access c resource ≡ ok tt)
      ↔ ((c.is_super_admin ≡ true) ⊎ ((t : ℕ) × (c.tenant_id ≡ some t) × (resource ≡ some t)))
unfolding ensure_tenant_resource_access
ensure_access_iff i resource {c} h = elim (validate_identity-scope i h) [
  | inl (super, is_global, no_tenant) ↦ (λ _. inl super, λ _. ground arith)
  | inr (t, not_super, is_tenant, own) ↦ elim (Option-cases resource) [
    | inl missing ↦ (λ e. absurd (ground arith), λ s. absurd (ground arith))
    | inr (r, e) ↦ (λ k. inr (t, own, ground arith), λ s. ground arith)
  ]
]

-- A user who gets in is active and not deleted, and so is the tenant of a tenant's user.
pub validate_identity-active :
    (i : SecurityIdentity) {c : RequestContext}
    → validate_identity i ≡ ok c
    → (i.status ≡ "active")
      × (i.deleted_at ≡ none)
      × ((c.is_super_admin ≡ true)
          ⊎ ((i.tenant_is_active ≡ some true) × (i.tenant_deleted_at ≡ none)))
unfolding validate_identity
validate_identity-active i h = ground (arith, str_eq_iff i.status "active")

-- A grant that gives a permission now: it and its role are active, and it has not expired.
abbrev pub Gives : ℕ → String → UserRole → Type 0
Gives now code g =
    (r : Role) × (g.is_active ≡ true)
    × (has_expired now g.expires_at ≡ false)
    × (g.role ≡ some r)
    × (r.is_active ≡ true)
    × (contains code r.permission_codes ≡ true)

contains-append :
    (code : String) (xs ys : List String)
    → contains code (xs ++ ys) ≡ true
    → (contains code xs ≡ true) ⊎ (contains code ys ≡ true)
unfolding contains
contains-append code [] ys h = inr h
contains-append code (x ∷ xs) ys h = ground (arith, contains-append code xs ys)

granted_role-Gives :
    (now : ℕ) (code : String) (g : UserRole) (r : Role)
    → granted_role now g ≡ some r
    → contains code r.permission_codes ≡ true
    → Gives now code g
unfolding granted_role
granted_role-Gives now code g r h k = (r, ground arith, ground arith, ground arith, ground arith, k)

codes_of-Gives :
    (now : ℕ) (code : String) (gs : List UserRole)
    → contains code (codes_of (granted_roles now gs)) ≡ true
    → Any (Gives now code) gs
unfolding codes_of granted_roles contains
codes_of-Gives now code [] h = cc
codes_of-Gives now code (g ∷ gs) h = elim (Option-cases (granted_role now g)) [
  | inl e ↦ inr (codes_of-Gives now code gs (ground arith))
  | inr (r, e) ↦
      elim (contains-append code r.permission_codes (codes_of (granted_roles now gs))
        (ground arith)) [
          | inl here ↦ inl (granted_role-Gives now code g r e here)
          | inr later ↦ inr (codes_of-Gives now code gs later)
        ]
]

identity_of-codes :
    (now : ℕ) (u : User) (i : SecurityIdentity)
    → identity_of now u ≡ some i
    → i.permission_codes ≡ codes_of (granted_roles now u.user_roles)
unfolding identity_of
identity_of-codes now u i h = elim (Option-cases u.auth_user_id) [
  | inl e ↦ absurd (ground arith)
  | inr (auth, e) ↦ grind arith
]

validate_identity-permissions :
    (i : SecurityIdentity) {c : RequestContext}
    → validate_identity i ≡ ok c
    → c.permissions ≡ i.permission_codes
unfolding validate_identity
validate_identity-permissions i h = elim (Option-cases i.tenant_id) [
  | inl e ↦ ground arith
  | inr (t, e) ↦ ground arith
]

check_permission-contains :
    (c : RequestContext) (code : String)
    → check_permission c code ≡ ok tt
    → contains code c.permissions ≡ true
unfolding check_permission
check_permission-contains c code h = ground arith

-- A permission check passes only for a permission that some grant of the user gives now: the grant
-- and its role are active, the grant has not expired, and the role holds the permission.
pub check_permission-granted :
    (now : ℕ) (u : User) (i : SecurityIdentity) (c : RequestContext) (code : String)
    → identity_of now u ≡ some i
    → validate_identity i ≡ ok c
    → check_permission c code ≡ ok tt
    → Any (Gives now code) u.user_roles
check_permission-granted now u i c code loaded valid checked =
    codes_of-Gives now code u.user_roles (
      subst (λ cs. contains code cs ≡ true)
        (validate_identity-permissions i valid ∙ identity_of-codes now u i loaded)
        (check_permission-contains c code checked))
