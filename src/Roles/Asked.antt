-- ===== src/Roles/Asked.antt =====
-- The permissions that a request for a role names: whose ids they are, and who sees the role.
use realesatecrm.Base.{
  ℕ, ◌≤◌, ◌≡◌, ◌≢◌, refl, sym, subst, inl, inr, String, Bool, true, false, Option, none, some, List,
  [], ◌∷◌, All, arith, select, length, ◌||◌, ◌==◌, ==_iff, opt_eq, str_eq_iff, Bool-cases,
}
use realesatecrm.Core.Errors.{ok}
use realesatecrm.Db.Rows.{Db, RoleRow, PermissionRow}
use realesatecrm.Db.Table.{is_null}
use realesatecrm.Security.Context.{contains}
use realesatecrm.Roles.Repository.{
  is_custom_role, is_visible_role, ids_by_code, codes_with, get_permission_ids, values,
}
use realesatecrm.Roles.Grants.{ids-All, All-select}
use realesatecrm.Roles.Protected.{roles_with}

-- The primary keys of both tables.
pub record Keyed (db : Db) : Type 0 where
  pub one_role : (i : ℕ) → length (roles_with i db) ≤ 1
  pub one_permission : All (λ p. select (λ q. q.id == p.id) db.permissions ≡ p ∷ []) db.permissions

-- The ids that codes resolve to are those of permissions with these codes.
named_permission :
    (code : String) (requested : List String) (perms : List PermissionRow) (p : PermissionRow)
    → select (λ q. q.id == p.id) perms ≡ p ∷ []
    → contains p.code requested ≡ true
    → contains code (codes_with p.id perms) ≡ true
    → contains code requested ≡ true
unfolding contains
named_permission code requested perms p one asked e =
    let same : p.code ≡ code = (str_eq_iff p.code code).0 (ground arith) in
    subst (λ c. contains c requested ≡ true) same asked

pub resolved_codes :
    (code : String) (requested : List String) (db : Db) {resolved : List (String × ℕ)}
    → Keyed db
    → get_permission_ids requested db ≡ (ok resolved, db)
    → All
        (λ v. contains code (codes_with v db.permissions) ≡ true → contains code requested ≡ true)
        (values resolved)
unfolding get_permission_ids
resolved_codes code [] db {resolved} keyed h =
    let none_found : resolved ≡ [] = cc in
    subst
      (λ d.
        All (λ v. contains code (codes_with v db.permissions) ≡ true → contains code [] ≡ true)
          (values d))
      (sym none_found) tt
resolved_codes code (c ∷ cs) db {resolved} keyed h =
    let found : resolved ≡ ids_by_code (select (λ p. contains p.code (c ∷ cs)) db.permissions) [] =
      cc in
    subst (λ d. All Asked (values d)) (sym found)
      (ids-All Asked (select (λ p. contains p.code (c ∷ cs)) db.permissions) []
        (All-select (λ p. Asked p.id) (λ p. contains p.code (c ∷ cs)) db.permissions
          (named db.permissions keyed.one_permission))
        tt)
  where
    Asked : ℕ → Type 0
    Asked v = contains code (codes_with v db.permissions) ≡ true → contains code (c ∷ cs) ≡ true

    named :
        (ps : List PermissionRow)
        → All (λ p. select (λ q. q.id == p.id) db.permissions ≡ p ∷ []) ps
        → All (λ p. contains p.code (c ∷ cs) ≡ true → Asked p.id) ps
    named [] k = tt
    named (p ∷ ps) k =
        (λ asked e. named_permission code (c ∷ cs) db.permissions p k.0 asked e, named ps k.1)

module _ (t u id : ℕ) (other : u ≢ t) where
  hidden_rows :
      (q : RoleRow → Bool) (rs : List RoleRow)
      → ((r : RoleRow) → q r ≡ true → (r.id == id) ≡ true)
      → length (select (λ r. r.id == id) rs) ≤ 0
      → select q rs ≡ []
  hidden_rows q [] k h = refl
  hidden_rows q (r ∷ rs) k h = ground (arith, hidden_rows q rs k, k r)

  hidden_tenant :
      (o : Option ℕ) → opt_eq o (some u) ≡ true → (is_null o || opt_eq o (some t)) ≡ false
  hidden_tenant none h = absurd (cc)
  hidden_tenant (some v) h = ground (arith, ==_iff v u, ==_iff v t)

  -- A tenant does not see the role that another one has under the id.
  pub hidden_custom :
      (rs : List RoleRow) (r : RoleRow)
      → length (select (λ r. r.id == id) rs) ≤ 1
      → select (is_custom_role u id) rs ≡ r ∷ []
      → select (is_visible_role t id) rs ≡ []
  hidden_custom [] r one h = refl
  hidden_custom (x ∷ rs) r one h = elim (Bool-cases (x.id == id)) [
    | inl here ↦
        let alone : length (select (λ r. r.id == id) rs) ≤ 0 = ground arith in
        let rest = hidden_rows (is_visible_role t id) rs (λ r e. ground arith) alone in
        let no_other = hidden_rows (is_custom_role u id) rs (λ r e. ground arith) alone in
        ground (arith, hidden_tenant x.tenant_id)
    | inr off ↦ ground (arith, hidden_custom rs r)
  ]
