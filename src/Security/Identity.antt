-- ===== src/Security/Identity.antt =====
-- backend/app/users/service.py, `select_primary_role` and `UserService.validate_identity`, and
-- backend/app/auth/service.py, `build_request_context`. Names and addresses are left out.
use realesatecrm.Base.{
  ℕ, ◌+◌, String, Bool, true, false, not, ◌||◌, ltb, str_eq, Option, none, some, List, [], ◌∷◌,
  if◌then◌else◌,
}
use realesatecrm.Core.Errors.{AppError, Result, ok, raised, app}
use realesatecrm.Security.Context.{RequestContext, SecurityScope, global, tenant}

-- SecurityIdentity: what the database holds on the subject of a verified token.
pub record SecurityIdentity : Type 0 where
  pub user_id : ℕ
  pub auth_user_id : ℕ
  pub tenant_id : Option ℕ
  pub status : String
  pub deleted_at : Option ℕ
  pub tenant_is_active : Option Bool
  pub tenant_deleted_at : Option ℕ
  pub role_names : List String
  pub permission_codes : List String
  pub is_super_admin : Bool

abbrev pub role_precedence : List String
role_precedence =
    "super_admin" ∷ "admin" ∷ "manager" ∷ "sales_manager" ∷ "sales_agent" ∷ "viewer" ∷ []

-- `precedence_index.get(name, len(ROLE_PRECEDENCE))`, in the list that starts at index `i`.
unfoldable pub precedence_from : ℕ → List String → String → ℕ
precedence_from i [] name = i
precedence_from i (r ∷ rs) name =
    let rest = precedence_from (i + 1) rs name in if str_eq r name then i else rest

unfoldable pub precedence : String → ℕ
unfolding precedence_from
precedence = precedence_from 0 role_precedence

-- `min` by precedence: the first of the smallest.
unfoldable pub min_role : String → List String → String
unfolding precedence
min_role best [] = best
min_role best (r ∷ rs) = min_role (if ltb (precedence r) (precedence best) then r else best) rs

abbrev pub denied : {A : Type 0} → String → Result A
denied code = raised (app (AppError.unauthorized code))

unfoldable pub select_primary_role : List String → Result String
unfolding min_role
select_primary_role [] = denied "NO_ACTIVE_ROLE"
select_primary_role (r ∷ rs) = ok (min_role r rs)

abbrev pub is_set : Option ℕ → Bool
is_set none = false
is_set (some a) = true

-- `tenant_is_active is not True or tenant_deleted_at is not None`
abbrev pub tenant_disabled : SecurityIdentity → Bool
tenant_disabled i = elim i.tenant_is_active [
  | none ↦ true
  | some active ↦ not active || is_set i.tenant_deleted_at
]

-- The context that `build_request_context` makes of a validated state.
abbrev pub context_of : SecurityIdentity → String → Option ℕ → SecurityScope → RequestContext
context_of i role tenant_id scope = record {
  user_id = i.user_id;
  auth_user_id = i.auth_user_id;
  tenant_id = tenant_id;
  role = role;
  permissions = i.permission_codes;
  is_super_admin = i.is_super_admin;
  scope = scope;
}

-- The branches of `validate_identity` for a super admin and for anybody else.
unfoldable pub validate_affiliation : SecurityIdentity → String → Option ℕ → Result RequestContext
validate_affiliation i role none =
    if i.is_super_admin then ok (context_of i role none global) else denied "INVALID_USER_STATE"
validate_affiliation i role (some t) =
    if i.is_super_admin
    then denied "INVALID_USER_STATE"
    else if tenant_disabled i
    then denied "TENANT_INACTIVE"
    else ok (context_of i role (some t) tenant)

-- `validate_identity`, with the context built of its result.
unfoldable pub validate_identity : SecurityIdentity → Result RequestContext
unfolding select_primary_role validate_affiliation
validate_identity i =
    if is_set i.deleted_at
    then denied "USER_INACTIVE"
    else if not (str_eq i.status "active")
    then denied "USER_INACTIVE"
    else elim (select_primary_role i.role_names) [
      | raised e ↦ raised e
      | ok role ↦ validate_affiliation i role i.tenant_id
    ]
