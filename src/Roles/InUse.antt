-- ===== src/Roles/InUse.antt =====
-- A role that users hold: backend/app/roles/service.py, `deactivate_role`.
use realesatecrm.Base.{
  ℕ, ◌<◌, ◌≡◌, refl, subst, ap, ◌∙◌, inl, inr, false, none, some, [], arith, select, ltb, ==_iff,
}
use realesatecrm.Core.Errors.{ok}
use realesatecrm.Db.Rows.{Db}
use realesatecrm.Db.Action.{Action, Engine, ◌>>=◌, raise_if, one_or_none, or_raise}
use realesatecrm.Db.Table.{select_head}
use realesatecrm.Db.Inversion.{>>=-ok-elim, one_or_none-eq-ok, or_raise-eq-ok, raise_if-eq-ok}
use realesatecrm.Db.Reads.{BringsFrom, look->>=, raise_if-Reads, never-BringsFrom}
use realesatecrm.Security.Context.{RequestContext}
use realesatecrm.Roles.Repository.{RoleView, get_by_id, is_visible_role, assignees, viewed}
use realesatecrm.Roles.Repository as Repository
use realesatecrm.Roles.Service.{get_role, role_not_found}
use realesatecrm.Roles.Service as Service
use realesatecrm.Roles.Endpoints.{deactivate_role}
use realesatecrm.Roles.History.{serve, deactivate, by_tenant}
use realesatecrm.Roles.Steps.{get_role-Reads}

abbrev Same : Db → Db → Type 0
Same db db' = db' ≡ db

module _ (t id : ℕ) where
  get_by_id-counts :
      (db : Db) {v : RoleView} {db' : Db}
      → get_by_id t id db ≡ (ok (some v), db')
      → v.assignee_count ≡ assignees id db
  unfolding get_by_id
  get_by_id-counts db {v} {db'} h =
      let rows = select (is_visible_role t id) db.roles in
      >>=-ok-elim (one_or_none rows) viewed db h λ found mid e rest.
        let (same, cases) = one_or_none-eq-ok rows db e in
        elim cases [
          | inl (n, _) ↦
              let left : viewed none mid ≡ (ok (some v), db') =
                subst (λ o. viewed o mid ≡ (ok (some v), db')) n rest in
              absurd (cc)
          | inr (r, s, one) ↦
              let left : viewed (some r) mid ≡ (ok (some v), db') =
                subst (λ o. viewed o mid ≡ (ok (some v), db')) s rest in
              let seen = select_head (is_visible_role t id) db.roles r [] one in
              let its_id : r.id ≡ id = ground (arith, ==_iff r.id id) in
              let its_count : v.assignee_count ≡ assignees r.id mid = cc in
              its_count ∙ ap (λ d. assignees r.id d) same ∙ ap (λ k. assignees k db) its_id
        ]

  get_role-counts :
      (db : Db) {v : RoleView} {db' : Db}
      → get_role t id db ≡ (ok v, db')
      → v.assignee_count ≡ assignees id db
  unfolding get_role
  get_role-counts db {v} {db'} h =
      >>=-ok-elim (get_by_id t id) (λ row. or_raise row role_not_found) db h
        λ found mid e rest.
          let is_some = (or_raise-eq-ok found _ mid rest).0 in
          get_by_id-counts db (e ∙ ap (λ o. (ok o, mid)) is_some)

  abbrev rest : Engine → Action RoleView
  rest eng = Repository.update eng t id Service.deactivation >>= λ row. or_raise row role_not_found

  -- While users hold a role actively, a request to deactivate it changes nothing.
  pub deactivate_role-in_use :
      (eng : Engine)
      → BringsFrom (λ db. 0 < assignees id db) Same (Service.deactivate_role eng t id)
  unfolding Service.deactivate_role
  deactivate_role-in_use eng =
      let same : (db : Db) → Same db db = λ db. refl in
      look->>= Same same _ (get_role t id) _ (get_role-Reads t id) λ existing.
        look->>= Same same _ (raise_if existing.role.is_system_role _) _ (raise_if-Reads _ _) λ _.
          look->>= Same same _ (raise_if (ltb 0 existing.assignee_count) _) (λ _. rest eng)
            (raise_if-Reads _ _)
            λ _. never-BringsFrom Same _ (rest eng) λ db q.
              let (((in_use, found), _), free) = q in
              let counted = get_role-counts db found in
              let none_left : ltb 0 existing.assignee_count ≡ false =
                (raise_if-eq-ok _ _ db free).0 in
              ground arith

-- While some user holds a role actively, a call of the endpoint that deactivates the role changes
-- nothing, whoever calls it and whatever the database refuses.
pub deactivate_role_refused :
    (eng : Engine) (context : RequestContext) (id : ℕ) (db : Db)
    → 0 < assignees id db
    → serve eng context (deactivate id) db ≡ db
unfolding serve deactivate_role BringsFrom
deactivate_role_refused eng context id db in_use =
    by_tenant context Same (λ d. refl) (λ d. 0 < assignees id d) "role.delete"
      (λ t. Service.deactivate_role eng t id)
      (λ t d (still, own). deactivate_role-in_use t id eng d still) db in_use
