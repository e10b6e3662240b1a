-- ===== src/Roles/History.antt =====
-- The histories of the requests that edit roles, and what one of them leaves behind.
use realesatecrm.Base.{ℕ, ◌≡◌, refl, String, Option, none, some, List, [], arith, select, ◌==◌}
use realesatecrm.Core.Errors.{ok}
use realesatecrm.Db.Rows.{Db}
use realesatecrm.Db.Action.{Action, Stmt, Engine, ◌>>=◌, ◌>>◌}
use realesatecrm.Db.Reads.{Reads, BringsFrom, look->>=}
use realesatecrm.Security.Context.{RequestContext}
use realesatecrm.Security.Permissions.{resolve_tenant_scope}
use realesatecrm.Routers.Guards.{require_permission, tenant_scope, some_tenant}
use realesatecrm.Roles.Repository.{RoleCreate, RoleUpdate, grants_of}
use realesatecrm.Roles.Service as Service
use realesatecrm.Roles.Service.{deactivation}
use realesatecrm.Roles.Endpoints.{
  create_role, update_role, deactivate_role, replace_role_permissions,
}
use realesatecrm.Roles.Steps.{
  Written, Created, Regranted, update_role-Writes, deactivate_role-Writes, create_role-Creates,
  replace_permissions-Regranted,
}

pub data Request : Type 0 where
  create : RoleCreate → Request
  update : ℕ → RoleUpdate → Request
  deactivate : ℕ → Request
  replace : ℕ → List String → Request

-- What a request leaves, whether it returned or raised.
unfoldable pub serve : Engine → RequestContext → Request → Db → Db
serve eng context (create d) db = (create_role eng d context db).1
serve eng context (update id d) db = (update_role eng id d context db).1
serve eng context (deactivate id) db = (deactivate_role eng id context db).1
serve eng context (replace id codes) db = (replace_role_permissions eng id codes context db).1

-- PostgreSQL refuses to insert a role under an id that a role has or that grants name.
unfoldable pub FreshRole : Engine → Type 0
FreshRole eng =
    (db : Db)
    → eng.fault Stmt.insert_role db ≡ none
    → (select (λ r. r.id == eng.new_id Stmt.insert_role db) db.roles ≡ [])
      × (grants_of (eng.new_id Stmt.insert_role db) db ≡ [])

-- The databases that a history leads to. `May` says which contexts may send a request to which
-- database; each request has its own engine.
pub data Edits (May : RequestContext → Db → Type 0) (db : Db) : Db → Type 0 where
  untouched : Edits May db db
  edit :
      {db' : Db} (eng : Engine) (context : RequestContext) (r : Request)
      → Edits May db db'
      → FreshRole eng
      → May context db'
      → Edits May db (serve eng context r db')

-- What a request changes: nothing, or as its kind says, in the tenant of its context.
pub data Effect (eng : Engine) (context : RequestContext) (db : Db) : Db → Type 0 where
  nothing : {db' : Db} → db' ≡ db → Effect eng context db db'
  written :
      {db' : Db} (t id : ℕ) (d : RoleUpdate)
      → context.tenant_id ≡ some t
      → Written eng t id d db db'
      → Effect eng context db db'
  created :
      {db' : Db} (t : ℕ) (d : RoleCreate)
      → context.tenant_id ≡ some t
      → Created eng t d db db'
      → Effect eng context db db'
  regranted :
      {db' : Db} (id : ℕ) (codes : List String)
      → Regranted eng context id codes db db'
      → Effect eng context db db'

pub require_permission-Reads :
    (code : String) (context : RequestContext) → Reads (require_permission code context)
unfolding Reads require_permission
require_permission-Reads code context db = refl

pub tenant_scope-Reads : (context : RequestContext) → Reads (tenant_scope context)
unfolding Reads tenant_scope
tenant_scope-Reads context db = refl

pub some_tenant-Reads : (scope : Option ℕ) → Reads (some_tenant scope)
unfolding Reads some_tenant
some_tenant-Reads none db = refl
some_tenant-Reads (some t) db = refl

module _ (context : RequestContext) where
  tenant_of_scope :
      (scope : Option ℕ) (t : ℕ) (db : Db)
      → tenant_scope context db ≡ (ok scope, db)
      → some_tenant scope db ≡ (ok t, db)
      → context.tenant_id ≡ some t
  unfolding tenant_scope some_tenant resolve_tenant_scope
  tenant_of_scope scope t db h k = ground arith

  module _ (R : Db → Db → Type 0) (same : (db : Db) → R db db) (Q : Db → Type 0) where
    found_tenant :
        {A : Type 0} (code : String) (m : Action A) (scope : Option ℕ) (t : ℕ)
        → BringsFrom (λ db. Q db × (context.tenant_id ≡ some t)) R m
        → BringsFrom
            (λ db.
              ((Q db × (require_permission code context db ≡ (ok tt, db)))
                × (tenant_scope context db ≡ (ok scope, db)))
              × (some_tenant scope db ≡ (ok t, db)))
            R
            m
    unfolding BringsFrom
    found_tenant code m scope t k db (((q, _), a), b) = k db (q, tenant_of_scope scope t db a b)

    -- An endpoint that asks for a permission and for a tenant.
    pub by_tenant :
        {A : Type 0} (code : String) (f : ℕ → Action A)
        → ((t : ℕ) → BringsFrom (λ db. Q db × (context.tenant_id ≡ some t)) R (f t))
        → BringsFrom Q R (
            require_permission code context
            >> (tenant_scope context >>= λ scope. some_tenant scope >>= f))
    by_tenant code f k =
        look->>= R same _ (require_permission code context) _
          (require_permission-Reads code context)
          λ _. look->>= R same _ (tenant_scope context) _ (tenant_scope-Reads context) λ scope.
            look->>= R same _ (some_tenant scope) f (some_tenant-Reads scope)
              λ t. found_tenant code (f t) scope t (k t)

abbrev Always : Db → Type 0
Always db = Unit

module _ (eng : Engine) (context : RequestContext) where
  no-Effect : (db : Db) → Effect eng context db db
  no-Effect db = nothing refl

  pub serve-Effect : (r : Request) (db : Db) → Effect eng context db (serve eng context r db)
  unfolding serve create_role update_role deactivate_role replace_role_permissions BringsFrom
  serve-Effect (create d) db =
      by_tenant context (Effect eng context) no-Effect Always "role.create"
        (λ t. Service.create_role eng t d)
        (λ t db' (_, own). created t d own (create_role-Creates eng t d db')) db tt
  serve-Effect (update id d) db =
      by_tenant context (Effect eng context) no-Effect Always "role.update"
        (λ t. Service.update_role eng t id d)
        (λ t db' (_, own). written t id d own (update_role-Writes eng t id d db' tt)) db tt
  serve-Effect (deactivate id) db =
      by_tenant context (Effect eng context) no-Effect Always "role.delete"
        (λ t. Service.deactivate_role eng t id)
        (λ t db' (_, own). written t id deactivation own (deactivate_role-Writes eng t id db' tt))
        db tt
  serve-Effect (replace id codes) db =
      look->>= (Effect eng context) no-Effect Always (require_permission "role.update" context)
        (λ _. Service.replace_permissions eng context id codes)
        (require_permission-Reads "role.update" context)
        (λ _ db' _. regranted id codes (replace_permissions-Regranted eng context id codes db' tt))
        db tt
