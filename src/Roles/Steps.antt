-- ===== src/Roles/Steps.antt =====
-- What the services of roles leave behind.
use realesatecrm.Base.{
  ℕ, ltb, ◌≡◌, refl, ◌⊎◌, inl, inr, String, Bool, false, not, ◌&&◌, Option, none, some, List, [],
  ◌∷◌, ◌++◌, map, select, length, arith, Bool-cases, subst, ◌==◌,
}
use realesatecrm.Core.Errors.{ok, clean_error}
use realesatecrm.Db.Rows.{Db, RoleRow}
use realesatecrm.Db.Action.{
  Action, Stmt, Engine, or_raise, raise_if, one_or_none, atomic, except_dbapi,
}
use realesatecrm.Db.Table.{update_where, delete_where}
use realesatecrm.Db.Inversion.{>>=-ok-elim, one_or_none-eq-ok, raise_if-eq-ok, or_raise-eq-ok}
use realesatecrm.Db.Reads.{
  Reads, >>=-Reads, BringsFrom, Reads-BringsFrom, pure-Reads, or_raise-Reads, raise_if-Reads,
  one_or_none-Reads, look->>=, BringsFrom->>=, atomic-BringsFrom, except_dbapi-BringsFrom,
}
use realesatecrm.Security.Context.{RequestContext, contains}
use realesatecrm.Roles.Repository as Repository
use realesatecrm.Roles.Repository.{
  RoleCreate, RoleUpdate, RoleView, is_custom_role, is_visible_role, role_row, set_role, grant,
  get_by_id, get_permission_ids, has_key, values, write_role, write_grants, is_empty, reread,
}
use realesatecrm.Roles.Service.{
  get_role, dedupe, deactivation, create_role, update_role, deactivate_role, replace_permissions,
}

pub get_by_id-Reads : (t id : ℕ) → Reads (get_by_id t id)
unfolding Reads get_by_id
get_by_id-Reads t id db = ground arith

pub get_role-Reads : (t id : ℕ) → Reads (get_role t id)
unfolding get_role
get_role-Reads t id =
    >>=-Reads (get_by_id t id) _ (get_by_id-Reads t id) λ row. or_raise-Reads row _

get_permission_ids-Reads : (codes : List String) → Reads (get_permission_ids codes)
unfolding Reads get_permission_ids
get_permission_ids-Reads [] db = refl
get_permission_ids-Reads (c ∷ cs) db = refl

reread-Reads : (t id : ℕ) (o : Option RoleRow) → Reads (reread t id o)
reread-Reads t id none = pure-Reads none
reread-Reads t id (some r) = get_by_id-Reads t id

-- The codes asked for that the requester does not hold.
abbrev pub not_held : RequestContext → List String → List String
not_held context codes = select (λ c. not (contains c context.permissions)) (dedupe [] codes)

-- What a request for permissions has checked before it writes.
abbrev pub Cleared : RequestContext → List String → List (String × ℕ) → Type 0
Cleared context codes resolved =
    (context.is_super_admin ≡ false) → length (not_held context codes) ≡ 0

module _ (eng : Engine) where
  -- A role is written, or nothing is.
  abbrev pub Written : ℕ → ℕ → RoleUpdate → Db → Db → Type 0
  Written t id d db db' =
      (db' ≡ db)
      ⊎ (db' ≡ record db { roles = update_where (is_custom_role t id) (set_role eng d) db.roles })

  write_role-Written :
      (t id : ℕ) (d : RoleUpdate) (db : Db) → Written t id d db (write_role eng t id d db).1
  unfolding write_role
  write_role-Written t id d db = ground arith

  Written-same : (t id : ℕ) (d : RoleUpdate) (db : Db) → Written t id d db db
  Written-same t id d db = inl refl

  -- It writes the role, or nothing.
  abbrev Writes : {A : Type 0} → ℕ → ℕ → RoleUpdate → (Db → Type 0) → Action A → Type 0
  Writes t id d Q m = BringsFrom Q (Written t id d) m

  update-Writes :
      (t id : ℕ) (d : RoleUpdate) (Q : Db → Type 0) → Writes t id d Q (Repository.update eng t id d)
  unfolding Repository.update BringsFrom
  update-Writes t id d Q = elim (Bool-cases (is_empty d)) [
    | inl e ↦ rw e (
        Reads-BringsFrom (Written t id d) (Written-same t id d) Q (get_by_id t id)
          (get_by_id-Reads t id))
    | inr e ↦ rw e (
        BringsFrom->>= (Written t id d) (Written-same t id d) Q (write_role eng t id d) _
          (λ db _. write_role-Written t id d db)
          λ rows. >>=-Reads (one_or_none rows) _ (one_or_none-Reads rows) (reread-Reads t id))
  ]

  module _ (t id : ℕ) where
    -- A refused request, and one that only looks, has written nothing.
    pub update_role-Writes :
        (d : RoleUpdate) → Writes t id d (λ _. Unit {0}) (update_role eng t id d)
    unfolding update_role
    update_role-Writes d =
        let R = Written t id d in
        let same = Written-same t id d in
        look->>= R same _ (get_role t id) _ (get_role-Reads t id) λ existing.
          look->>= R same _ (raise_if existing.role.is_system_role _) _ (raise_if-Reads _ _) λ _.
            BringsFrom->>= R same _ (except_dbapi (Repository.update eng t id d) clean_error) _
              (except_dbapi-BringsFrom R same _ (Repository.update eng t id d) clean_error
                (update-Writes t id d _))
              λ row. or_raise-Reads row _

    pub deactivate_role-Writes : Writes t id deactivation (λ _. Unit {0}) (deactivate_role eng t id)
    unfolding deactivate_role
    deactivate_role-Writes =
        let R = Written t id deactivation in
        let same = Written-same t id deactivation in
        look->>= R same _ (get_role t id) _ (get_role-Reads t id) λ existing.
          look->>= R same _ (raise_if existing.role.is_system_role _) _ (raise_if-Reads _ _) λ _.
            look->>= R same _ (raise_if (ltb 0 existing.assignee_count) _) _ (raise_if-Reads _ _)
              λ _.
                BringsFrom->>= R same _ (Repository.update eng t id deactivation) _
                  (update-Writes t id deactivation _) λ row. or_raise-Reads row _

  -- A role is created under a new id, or nothing is written.
  abbrev pub Created : ℕ → RoleCreate → Db → Db → Type 0
  Created t d db db' =
      (db' ≡ db)
      ⊎ ((eng.fault Stmt.insert_role db ≡ none)
          × (db' ≡ record db { roles = role_row eng t d db ∷ db.roles }))

  pub create_role-Creates :
      (t : ℕ) (d : RoleCreate) (db : Db) → Created t d db (create_role eng t d db).1
  unfolding create_role
  create_role-Creates t d db = ground arith

  -- The grants of a role of the tenant's own are replaced, or nothing is written.
  abbrev pub Replaced : ℕ → ℕ → List ℕ → Db → Db → Type 0
  Replaced t id ps db db' =
      (db' ≡ db)
      ⊎ ((r : RoleRow) × (select (is_custom_role t id) db.roles ≡ r ∷ [])
          × (db' ≡ record db {
            role_permissions =
                map (grant id) ps ++ delete_where (λ g. g.role_id == id) db.role_permissions;
          }))

  write_grants-ok :
      (id : ℕ) (ps : List ℕ) (db : Db) {b : Bool} {db' : Db}
      → write_grants eng id ps db ≡ (ok b, db')
      → db' ≡ record db {
        role_permissions =
            map (grant id) ps ++ delete_where (λ g. g.role_id == id) db.role_permissions;
      }
  unfolding write_grants
  write_grants-ok id [] db h = ground arith
  write_grants-ok id (p ∷ ps) db h = ground arith

  replace-ok :
      (t id : ℕ) (ps : List ℕ) (db : Db) {b : Bool} {db' : Db}
      → Repository.replace_permissions eng t id ps db ≡ (ok b, db')
      → Replaced t id ps db db'
  unfolding Repository.replace_permissions
  replace-ok t id ps db {b} {db'} h =
      let rows = select (is_custom_role t id) db.roles in
      >>=-ok-elim (one_or_none rows) (Repository.guarded eng id ps) db h λ found mid e rest.
        let (same, cases) = one_or_none-eq-ok rows db e in
        elim cases [
          | inl (n, _) ↦
              let left : Repository.guarded eng id ps none mid ≡ (ok b, db') =
                subst (λ o. Repository.guarded eng id ps o mid ≡ (ok b, db')) n rest in
              inl (cc)
          | inr (r, s, one) ↦
              let left : write_grants eng id ps mid ≡ (ok b, db') =
                subst (λ o. Repository.guarded eng id ps o mid ≡ (ok b, db')) s rest in
              inr (
                r,
                one,
                write_grants-ok id ps db
                    (subst (λ (d : Db). write_grants eng id ps d ≡ (ok b, db')) same left),
              )
        ]

  -- The permissions of a role are replaced by those that the codes name, or nothing is written.
  abbrev pub Regranted : RequestContext → ℕ → List String → Db → Db → Type 0
  Regranted context id codes db db' =
      (db' ≡ db)
      ⊎ ((t : ℕ) × (resolved : List (String × ℕ)) × (context.tenant_id ≡ some t)
          × (get_permission_ids (dedupe [] codes) db ≡ (ok resolved, db))
          × Cleared context codes resolved
          × Replaced t id (values resolved) db db')

  pub replace_permissions-Regranted :
      (context : RequestContext) (id : ℕ) (codes : List String)
      → BringsFrom
          (λ _. Unit {0})
          (Regranted context id codes)
          (replace_permissions eng context id codes)
  unfolding replace_permissions
  replace_permissions-Regranted context id codes =
      let R = Regranted context id codes in
      let same = λ (db : Db). inl refl in
      look->>= R same _ (or_raise context.tenant_id _) _ (or_raise-Reads context.tenant_id _) λ t.
        look->>= R same _ (get_role t id) _ (get_role-Reads t id) λ existing.
          look->>= R same _ (raise_if existing.role.is_system_role _) _ (raise_if-Reads _ _) λ _.
            look->>= R same _ (get_permission_ids (dedupe [] codes)) _ (get_permission_ids-Reads _)
              λ resolved.
                look->>= R same _
                  (raise_if
                    (ltb 0 (length (select (λ c. not (has_key c resolved)) (dedupe [] codes)))) _)
                  _ (raise_if-Reads _ _)
                  λ _.
                    look->>= R same _
                      (raise_if
                        (not context.is_super_admin && ltb 0 (length (not_held context codes))) _)
                      _ (raise_if-Reads _ _)
                      λ _.
                        BringsFrom->>= R same _
                          (atomic (Repository.replace_permissions eng t id (values resolved))) _
                          (atomic-BringsFrom R same _
                            (Repository.replace_permissions eng t id (values resolved))
                            λ b db db' q e.
                              let ((((((_, own), _), _), look), _), held) = q in
                              let blocked : (not context.is_super_admin
                                    && ltb 0 (length (not_held context codes)))
                                  ≡ false =
                                (raise_if-eq-ok _ _ db held).0 in
                              inr (
                                t,
                                resolved,
                                (or_raise-eq-ok context.tenant_id _ db own).0,
                                look,
                                λ ordinary. ground arith,
                                replace-ok t id (values resolved) db e,
                              ))
                          λ ok_row.
                            >>=-Reads (raise_if (not ok_row) _) _ (raise_if-Reads _ _)
                              λ _. get_role-Reads t id
