-- ===== src/Routers/Isolation.antt =====
-- What the guards of the endpoints come to: nobody changes or reads rows of another tenant, and
-- nobody changes anything without a grant.
use realesatecrm.Base.{
  ℕ, ◌≡◌, ◌≢◌, ap, sym, ◌∙◌, subst, inl, inr, false, Option, none, some, arith, Any,
}
use realesatecrm.Core.Errors.{Result, ok, raised}
use realesatecrm.Db.Rows.{Db, Booking, Sale, Ownership, Listing}
use realesatecrm.Db.Action.{Engine}
use realesatecrm.Security.Context.{RequestContext}
use realesatecrm.Security.Permissions.{resolve_tenant_scope}
use realesatecrm.Security.Identity.{SecurityIdentity, validate_identity}
use realesatecrm.Security.Grants.{User, identity_of}
use realesatecrm.Security.Access.{
  Gives, validate_identity-scope, resolve_tenant_scope-authenticated, check_permission-granted,
}
use realesatecrm.Crm.Tenancy.{SameFor}
use realesatecrm.Crm.Isolation.{KeyedOwnerships, tenant_of, served-SameFor}
use realesatecrm.Routers.Call.{Call, permission_of}
use realesatecrm.Routers.Calls.{answer, answer-Guarded}
use realesatecrm.Routers.Bookings.{get_booking}
use realesatecrm.Routers.Sales.{get_sale}
use realesatecrm.Routers.Ownerships.{get_ownership, get_current_ownership, get_resale_listing}

SameFor-same : (u : ℕ) {db db' : Db} → db' ≡ db → SameFor u db db'
SameFor-same u {db} e = subst (SameFor u db) (sym e) (ground arith)

-- The filter of a user's request, where the user is no super admin.
own_tenant_only :
    (i : SecurityIdentity) {c : RequestContext} (scope : Option ℕ)
    → validate_identity i ≡ ok c
    → c.is_super_admin ≡ false
    → resolve_tenant_scope c none ≡ ok scope
    → (t : ℕ) × (scope ≡ some t) × (c.tenant_id ≡ some t)
own_tenant_only i scope valid not_super resolved = elim (validate_identity-scope i valid) [
  | inl (super, _, _) ↦ absurd (ground arith)
  | inr (t, _, _, own) ↦ (t, ground (arith, resolve_tenant_scope-authenticated i none valid), own)
]

-- A call of a user who is no super admin, of whatever endpoint, with whatever payload and outcome,
-- leaves every other tenant's rows as they were in the tables whose rows all have a tenant, and all rows
-- of the other tables, if ownership records with the same id are of the same tenant.
pub answer_isolated :
    (eng : Engine) (i : SecurityIdentity) (call : Call) (db : Db) {c : RequestContext} (u : ℕ)
    → validate_identity i ≡ ok c
    → c.is_super_admin ≡ false
    → c.tenant_id ≢ some u
    → KeyedOwnerships db
    → SameFor u db (answer eng c call db)
answer_isolated eng i call db {c} u valid not_super foreign keyed =
    elim (answer-Guarded eng c db call) [
      | inl same ↦ SameFor-same u same
      | inr (q, _, resolved, done) ↦
          let (t, scoped, own) = own_tenant_only i (tenant_of q) valid not_super resolved in
          subst (SameFor u db) (sym done)
            (served-SameFor eng t u db q (λ e. foreign (own ∙ ap some (sym e))) keyed scoped)
    ]

-- A call that changes the database comes from a user to whom a grant gives the endpoint's permission
-- now: the grant and its role are active, the grant has not expired, and the role holds the
-- permission.
pub answer_permitted :
    (eng : Engine) (now : ℕ) (user : User) (i : SecurityIdentity) (call : Call) (db : Db)
    {c : RequestContext}
    → identity_of now user ≡ some i
    → validate_identity i ≡ ok c
    → answer eng c call db ≢ db
    → Any (Gives now (permission_of call)) user.user_roles
answer_permitted eng now user i call db {c} loaded valid changes =
    elim (answer-Guarded eng c db call) [
      | inl same ↦ absurd (changes same)
      | inr (q, allowed, _, _) ↦
          check_permission-granted now user i c (permission_of call) loaded valid allowed
    ]

-- A call of an endpoint that shows one row of a booking, a sale, an ownership record or a listing.
-- `current` is by the property's id, the others are by the row's.
pub data Read : Type 0 where
  booking sale ownership listing current : ℕ → Read

-- The tenant of the row that is shown.
abbrev tenant_of_row : {A : Type 0} → (A → ℕ) → Result A → Result ℕ
tenant_of_row tenant (ok a) = ok (tenant a)
tenant_of_row tenant (raised x) = raised x

unfoldable pub shown_tenant : RequestContext → Read → Db → Result ℕ
shown_tenant c (Read.booking id) db =
    tenant_of_row (λ (r : Booking). r.tenant_id) (get_booking id c db).0
shown_tenant c (Read.sale id) db = tenant_of_row (λ (r : Sale). r.tenant_id) (get_sale id c db).0
shown_tenant c (Read.ownership id) db =
    tenant_of_row (λ (r : Ownership). r.tenant_id) (get_ownership id c db).0
shown_tenant c (Read.listing id) db =
    tenant_of_row (λ (r : Listing). r.tenant_id) (get_resale_listing id c db).0
shown_tenant c (Read.current id) db =
    tenant_of_row (λ (r : Ownership). r.tenant_id) (get_current_ownership id c db).0
