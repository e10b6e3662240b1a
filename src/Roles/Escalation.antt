-- ===== src/Roles/Escalation.antt =====
-- No escalation: what the users of the tenants can bring into their roles by editing them.
use realesatecrm.Base.{
  ℕ, ◌≡◌, sym, subst, inl, inr, String, Bool, true, false, none, some, List, [], ◌∷◌, arith, select,
  length, ltb, map, ◌++◌, ◌&&◌, ◌==◌, ==_iff, Bool-cases,
}
use native.Mathlib.Nat.{le_trans}
use realesatecrm.Core.Errors.{ok}
use realesatecrm.Db.Rows.{Db, RoleRow}
use realesatecrm.Db.Action.{Engine, Stmt}
use realesatecrm.Db.Table.{delete_where, update_where, length-select-update_where}
use realesatecrm.Security.Context.{RequestContext, contains}
use realesatecrm.Roles.Repository.{
  is_custom_role, is_visible_role, RoleUpdate, RoleCreate, role_row, grant, granted_codes, set_role,
  grants_of, codes_of_role, get_permission_ids, values,
}
use realesatecrm.Roles.Service.{dedupe}
use realesatecrm.Roles.Grants.{other_grants, new_grants, granted-All, held}
use realesatecrm.Roles.Asked.{Keyed, resolved_codes, hidden_custom}
use realesatecrm.Roles.Steps.{Cleared}
use realesatecrm.Roles.Protected.{roles_with}
use realesatecrm.Roles.History.{
  Edits, untouched, edit, serve-Effect, Effect, nothing, written, created, regranted, FreshRole,
}

-- The tenant sees a role under the id, and the role holds the code.
unfoldable pub holds : ℕ → String → ℕ → Db → Bool
unfolding codes_of_role contains
holds t code i db =
    ltb 0 (length (select (is_visible_role t i) db.roles)) && contains code (codes_of_role i db)

-- No super admin, and every permission of the context comes from a role that its tenant sees.
abbrev pub Ordinary : RequestContext → Db → Type 0
Ordinary context db =
    (context.is_super_admin ≡ false)
    × ((t : ℕ) (code : String)
        → context.tenant_id ≡ some t
        → contains code context.permissions ≡ true
        → (i : ℕ) × (holds t code i db ≡ true))

-- The tenant's roles do not hold the code.
abbrev pub Lacks : ℕ → String → Db → Type 0
Lacks t code db = (i : ℕ) → holds t code i db ≡ false

Written-Keyed :
    (eng : Engine) (u id : ℕ) (d : RoleUpdate) (db : Db)
    → Keyed db
    → Keyed (record db { roles = update_where (is_custom_role u id) (set_role eng d) db.roles })
Written-Keyed eng u id d db k = record {
  one_role = λ i.
      le_trans
        (length-select-update_where (λ r. r.id == i) (is_custom_role u id) (set_role eng d) db.roles
          (λ r e. e))
        (k.one_role i);
  one_permission = k.one_permission;
}

module _ (t : ℕ) (code : String) (eng : Engine) where
  Written-Lacks :
      (u id : ℕ) (d : RoleUpdate) (db : Db)
      → Lacks t code db
      → Lacks t code
          (record db { roles = update_where (is_custom_role u id) (set_role eng d) db.roles })
  unfolding holds
  Written-Lacks u id d db lacks i = ground (
    arith,
    lacks i,
    length-select-update_where (is_visible_role t i) (is_custom_role u id) (set_role eng d) db.roles
        (λ (r : RoleRow) (e : is_visible_role t i (set_role eng d r) ≡ true). e),
  )

  Created-Keyed :
      (u : ℕ) (d : RoleCreate) (db : Db)
      → FreshRole eng
      → eng.fault Stmt.insert_role db ≡ none
      → Keyed db
      → Keyed (record db { roles = role_row eng u d db ∷ db.roles })
  unfolding FreshRole
  Created-Keyed u d db fresh free k = record {
    one_role = λ i. elim (Bool-cases (eng.new_id Stmt.insert_role db == i)) [
      | inl taken ↦
          let gone : roles_with i db ≡ [] =
            subst (λ j. roles_with j db ≡ []) ((==_iff (eng.new_id Stmt.insert_role db) i).0 taken)
              (fresh db free).0 in
          ground arith
      | inr apart ↦ ground (arith, k.one_role i)
    ];
    one_permission = k.one_permission;
  }

  Created-Lacks :
      (u : ℕ) (d : RoleCreate) (db : Db)
      → FreshRole eng
      → eng.fault Stmt.insert_role db ≡ none
      → Lacks t code db
      → Lacks t code (record db { roles = role_row eng u d db ∷ db.roles })
  unfolding FreshRole holds
  Created-Lacks u d db fresh free lacks i =
      elim (Bool-cases (eng.new_id Stmt.insert_role db == i)) [
        | inl taken ↦
            let gone : grants_of i db ≡ [] =
              subst (λ j. grants_of j db ≡ []) ((==_iff (eng.new_id Stmt.insert_role db) i).0 taken)
                (fresh db free).1 in
            rw gone (ground arith)
        | inr apart ↦ ground (arith, lacks i)
      ]

  module _ (context : RequestContext) (u id : ℕ) (codes : List String)
      (resolved : List (String × ℕ)) (db : Db) (keyed : Keyed db) (may : Ordinary context db)
      (own : context.tenant_id ≡ some u)
      (look : get_permission_ids (dedupe [] codes) db ≡ (ok resolved, db))
      (cleared : Cleared context codes resolved) where
    abbrev regranted_db : Db
    regranted_db = record db {
      role_permissions =
          map (grant id) (values resolved)
          ++ delete_where (λ g. g.role_id == id) db.role_permissions;
    }

    -- A code that the role comes to hold is one that the requester holds.
    asked_held :
        contains code (codes_of_role id regranted_db) ≡ true
        → contains code context.permissions ≡ true
    unfolding codes_of_role
    asked_held e = held code context.permissions (dedupe [] codes) (cleared may.0) (
        granted-All (λ c. contains c (dedupe [] codes) ≡ true) code db.permissions id
          (values resolved) (resolved_codes code (dedupe [] codes) db keyed look)
          (subst (λ gs. contains code (granted_codes db.permissions gs) ≡ true)
            (new_grants id (values resolved) db.role_permissions) e))

    regranted-Lacks :
        (r : RoleRow)
        → select (is_custom_role u id) db.roles ≡ r ∷ []
        → Lacks t code db
        → Lacks t code regranted_db
    unfolding holds
    regranted-Lacks r found lacks i = elim (Bool-cases (i == id)) [
      | inl here ↦ elim (Bool-cases (contains code (codes_of_role id regranted_db))) [
        | inl gained ↦
            let (j, before) = may.1 u code own (asked_held gained) in
            elim (Bool-cases (u == t)) [
              | inl mine ↦ absurd (ground (arith, lacks j, ==_iff u t))
              | inr other ↦
                  let unseen =
                    hidden_custom t u id (λ same. ground (arith, ==_iff u t)) db.roles r
                      (keyed.one_role id) found in
                  ground (arith, ==_iff i id)
            ]
        | inr not_gained ↦ ground (arith, ==_iff i id)
      ]
      | inr elsewhere ↦ ground (
        arith,
        lacks i,
        other_grants i id (λ same. ground (arith, ==_iff i id)) (values resolved)
            db.role_permissions,
      )
    ]

-- What the induction carries.
abbrev Guarded : ℕ → String → Db → Type 0
Guarded t code db = Keyed db × Lacks t code db

module _ (t : ℕ) (code : String) (eng : Engine) (context : RequestContext) where
  Effect-Guarded :
      {db db' : Db}
      → Effect eng context db db'
      → FreshRole eng
      → Ordinary context db
      → Guarded t code db
      → Guarded t code db'
  Effect-Guarded {db} (nothing e) fresh may g = subst (Guarded t code) (sym e) g
  Effect-Guarded {db} (written u id d own w) fresh may (k, lacks) = elim w [
    | inl e ↦ subst (Guarded t code) (sym e) (k, lacks)
    | inr e ↦
        subst (Guarded t code) (sym e)
          (Written-Keyed eng u id d db k, Written-Lacks t code eng u id d db lacks)
  ]
  Effect-Guarded {db} (created u d own w) fresh may (k, lacks) = elim w [
    | inl e ↦ subst (Guarded t code) (sym e) (k, lacks)
    | inr (free, e) ↦ subst (Guarded t code) (sym e) (
      Created-Keyed t code eng u d db fresh free k,
      Created-Lacks t code eng u d db fresh free lacks,
    )
  ]
  Effect-Guarded {db} (regranted id codes w) fresh may (k, lacks) = elim w [
    | inl e ↦ subst (Guarded t code) (sym e) (k, lacks)
    | inr (u, resolved, own, look, cleared, inl e) ↦ subst (Guarded t code) (sym e) (k, lacks)
    | inr (u, resolved, own, look, cleared, inr (r, found, e)) ↦ subst (Guarded t code) (sym e) (
      record { one_role = k.one_role; one_permission = k.one_permission },
      regranted-Lacks t code eng context u id codes resolved db k may own look cleared r found
          lacks,
    )
  ]

Edits-Guarded :
    (t : ℕ) (code : String) {db db' : Db}
    → Edits Ordinary db db'
    → Guarded t code db
    → Guarded t code db'
Edits-Guarded t code untouched g = g
Edits-Guarded t code (edit {db' = mid} eng context r before fresh may) g =
    Effect-Guarded t code eng context (serve-Effect eng context r mid) fresh may
      (Edits-Guarded t code before g)

-- A permission that no role which a tenant sees holds at the start, its own roles and those of the
-- platform, none of them comes to hold, whatever roles the users of the tenants create, change and
-- grant, in whatever order and with whatever refusals of the database: if no super admin takes part,
-- each user's permissions are those of roles that its tenant sees at the time, ids name one role and one
-- permission, and PostgreSQL lets no role in under an id that is taken.
pub Edits-Lacks :
    (t : ℕ) (code : String) {db db' : Db}
    → Edits Ordinary db db'
    → Keyed db
    → Lacks t code db
    → Lacks t code db'
Edits-Lacks t code h keyed lacks = (Edits-Guarded t code h (keyed, lacks)).1
