-- ===== src/Roles/Protected.antt =====
-- Roles that the users of a tenant may not edit: the platform's system roles and other tenants' roles.
use realesatecrm.Base.{
  ℕ, ◌≡◌, ◌≢◌, refl, sym, subst, subst₂, ap, ◌∙◌, ◌⊎◌, inl, inr, true, false, Option, some, List,
  [], ◌∷◌, All, arith, select, ◌==◌, ==_iff, opt_eq, Bool-cases,
}
use realesatecrm.Db.Rows.{Db, RoleRow}
use realesatecrm.Db.Action.{Engine, Stmt}
use realesatecrm.Db.Table.{update_where}
use realesatecrm.Security.Context.{RequestContext}
use realesatecrm.Roles.Repository.{is_custom_role, set_role, grants_of, values}
use realesatecrm.Roles.Grants.{other_grants, select-All}
use realesatecrm.Roles.History.{
  Edits, untouched, edit, serve-Effect, Effect, nothing, written, created, regranted, FreshRole,
}

abbrev pub roles_with : ℕ → Db → List RoleRow
roles_with i db = select (λ r. r.id == i) db.roles

-- A system role, or a role of no tenant or of another one.
abbrev pub Outside : ℕ → RoleRow → Type 0
Outside t r = (r.is_system_role ≡ true) ⊎ (opt_eq r.tenant_id (some t) ≡ false)

module _ (t i : ℕ) where
  Outside-kept :
      (id : ℕ) (f : RoleRow → RoleRow) (rs : List RoleRow)
      → All (λ r. (r.id == i) ≡ true → Outside t r) rs
      → ((r : RoleRow) → (f r).id ≡ r.id)
      → select (λ r. r.id == i) (update_where (is_custom_role t id) f rs)
        ≡ select (λ r. r.id == i) rs
  Outside-kept id f [] out keeps = refl
  Outside-kept id f (r ∷ rs) out keeps =
      ground (arith, Outside-kept id f rs out.1 keeps, keeps r, out.0)

  Outside-not_custom :
      (rs : List RoleRow)
      → All (λ r. (r.id == i) ≡ true → Outside t r) rs
      → select (is_custom_role t i) rs ≡ []
  Outside-not_custom [] out = refl
  Outside-not_custom (r ∷ rs) out = ground (arith, Outside-not_custom rs out.1, out.0)

some-inj : {a b : ℕ} {o : Option ℕ} → o ≡ some a → o ≡ some b → a ≡ b
some-inj p q = cc

-- The role and its grants are the same.
abbrev pub SameRole : ℕ → Db → Db → Type 0
SameRole i db db' = (roles_with i db' ≡ roles_with i db) × (grants_of i db' ≡ grants_of i db)

module _ (t i : ℕ) (eng : Engine) (context : RequestContext)
    (own : context.tenant_id ≡ some t) where
  Effect-SameRole :
      {db db' : Db}
      → Effect eng context db db'
      → FreshRole eng
      → roles_with i db ≢ []
      → All (Outside t) (roles_with i db)
      → SameRole i db db'
  unfolding FreshRole
  Effect-SameRole {db} (nothing e) fresh is_there out = (cc, cc)
  Effect-SameRole {db} (written u id d mine w) fresh is_there out =
      let spared = select-All (Outside t) (λ r. r.id == i) db.roles out in
      let u_is : u ≡ t = some-inj mine own in
      elim w [
        | inl e ↦ (cc, cc)
        | inr e ↦ (
          ap (roles_with i) e
              ∙ subst
                  (λ v.
                    select (λ r. r.id == i)
                      (update_where (is_custom_role v id) (set_role eng d) db.roles)
                    ≡ roles_with i db)
                  (sym u_is) (Outside-kept t i id (set_role eng d) db.roles spared (λ r. refl)),
          ap (grants_of i) e,
        )
      ]
  Effect-SameRole {db} (created u d mine w) fresh is_there out = elim w [
    | inl e ↦ (cc, cc)
    | inr (free, e) ↦
        let new = fresh db free in
        (
          ap (roles_with i) e ∙ elim (Bool-cases (eng.new_id Stmt.insert_role db == i)) [
            | inl taken ↦ absurd (
                is_there (
                  subst (λ k. roles_with k db ≡ [])
                    ((==_iff (eng.new_id Stmt.insert_role db) i).0 taken) new.0))
            | inr apart ↦ ground arith
          ],
          ap (grants_of i) e,
        )
  ]
  Effect-SameRole {db} (regranted id codes w) fresh is_there out = elim w [
    | inl e ↦ (cc, cc)
    | inr (u, resolved, mine, look, cleared, inl e) ↦ (cc, cc)
    | inr (u, resolved, mine, look, cleared, inr (r, found, e)) ↦
        let other : i ≢ id = λ same.
          let none_custom : select (is_custom_role u id) db.roles ≡ [] =
            subst₂ (λ v k. select (is_custom_role v k) db.roles ≡ []) (some-inj own mine) same
              (Outside-not_custom t i db.roles
                (select-All (Outside t) (λ r. r.id == i) db.roles out)) in
          cc in
        (
          ap (roles_with i) e,
          ap (grants_of i) e ∙ other_grants i id other (values resolved) db.role_permissions,
        )
  ]

-- Whatever the users of a tenant ask for, in whatever order and with whatever refusals of the
-- database: a system role of the platform, a role that has no tenant, and a role of another tenant
-- stay as they are, with the permissions that are granted to them, if PostgreSQL lets no role in
-- under an id that is taken.
pub Edits-SameRole :
    (t i : ℕ) {db db' : Db}
    → Edits (λ context _. context.tenant_id ≡ some t) db db'
    → roles_with i db ≢ []
    → All (Outside t) (roles_with i db)
    → SameRole i db db'
Edits-SameRole t i untouched is_there out = (refl, refl)
Edits-SameRole t i {db} (edit {db' = mid} eng context r before fresh own) is_there out =
    let (same, grants) = Edits-SameRole t i before is_there out in
    let (same', grants') =
      Effect-SameRole t i eng context own (serve-Effect eng context r mid) fresh
        (λ gone. is_there (sym same ∙ gone)) (subst (All (Outside t)) (sym same) out) in
    (same' ∙ same, grants' ∙ grants)
