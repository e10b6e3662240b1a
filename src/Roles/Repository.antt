-- ===== src/Roles/Repository.antt =====
-- backend/app/roles/repository.py. The order of permission codes is left out.
use realesatecrm.Base.{
  ℕ, String, Text, Bool, true, false, not, ◌&&◌, ◌||◌, Option, none, some, List, [], ◌∷◌, ◌++◌, map,
  ◌==◌, ltb, opt_eq, str_eq, select, length, if◌then◌else◌,
}
use realesatecrm.Db.Rows.{Db, RoleRow, PermissionRow, RolePermission}
use realesatecrm.Db.Action.{
  Action, Stmt, Engine, ◌>>=◌, ◌>>◌, pure, gets, one_or_none, execute, refuse,
}
use realesatecrm.Db.Table.{update_where, delete_where, coalesce, is_null}
use realesatecrm.Security.Context.{contains}

-- RoleCreate
pub record RoleCreate : Type 0 where
  pub name : Text
  pub display_name : Text
  pub description : Option Text

-- RoleUpdate, as `model_dump(exclude_unset=True)`: a field is `none` where the request does not set
-- it, and `some none` where it sets NULL.
pub record RoleUpdate : Type 0 where
  pub display_name : Option (Option Text)
  pub description : Option (Option Text)
  pub is_active : Option (Option Bool)

-- A role with what _ROLE_SELECT_FIELDS joins.
pub record RoleView : Type 0 where
  pub role : RoleRow
  pub permission_codes : List String
  pub assignee_count : ℕ

-- The permissions that have an id, and the codes that grants come to.
abbrev pub codes_with : ℕ → List PermissionRow → List String
codes_with id ps = map (λ (p : PermissionRow). p.code) (select (λ p. p.id == id) ps)

unfoldable pub granted_codes : List PermissionRow → List RolePermission → List String
granted_codes ps [] = []
granted_codes ps (g ∷ gs) = codes_with g.permission_id ps ++ granted_codes ps gs

abbrev pub grants_of : ℕ → Db → List RolePermission
grants_of id db = select (λ g. g.role_id == id) db.role_permissions

unfoldable pub codes_of_role : ℕ → Db → List String
unfolding granted_codes
codes_of_role id db = granted_codes db.permissions (grants_of id db)

unfoldable pub assignees : ℕ → Db → ℕ
assignees id db = length (select (λ a. a.role_id == id && a.is_active) db.user_roles)

abbrev pub view : RoleRow → Db → RoleView
view r db = record {
  role = r;
  permission_codes = codes_of_role r.id db;
  assignee_count = assignees r.id db;
}

-- `id = :role_id AND (tenant_id IS NULL OR tenant_id = :tenant_id)`
abbrev pub is_visible_role : ℕ → ℕ → RoleRow → Bool
is_visible_role t id r = r.id == id && (is_null r.tenant_id || opt_eq r.tenant_id (some t))

-- `id = :role_id AND tenant_id = :tenant_id AND is_system_role = false`
abbrev pub is_custom_role : ℕ → ℕ → RoleRow → Bool
is_custom_role t id r = r.id == id && opt_eq r.tenant_id (some t) && not r.is_system_role

abbrev pub viewed : Option RoleRow → Action (Option RoleView)
viewed none = pure none
viewed (some r) = gets (λ db. some (view r db))

unfoldable pub get_by_id : ℕ → ℕ → Action (Option RoleView)
get_by_id t id = do
  rows ← gets (λ db. select (is_visible_role t id) db.roles)
  found ← one_or_none rows
  viewed found

-- A Python dict in the order of its keys: `d[k] = v`.
unfoldable pub put : String → ℕ → List (String × ℕ) → List (String × ℕ)
put k v [] = (k, v) ∷ []
put k v ((j, w) ∷ d) = if str_eq j k then (k, v) ∷ d else (j, w) ∷ put k v d

unfoldable pub has_key : String → List (String × ℕ) → Bool
has_key k [] = false
has_key k ((j, w) ∷ d) = str_eq j k || has_key k d

abbrev pub values : List (String × ℕ) → List ℕ
values [] = []
values ((k, v) ∷ d) = v ∷ values d

-- `{row["code"]: row["id"] for row in rows}`
unfoldable pub ids_by_code : List PermissionRow → List (String × ℕ) → List (String × ℕ)
unfolding put
ids_by_code [] d = d
ids_by_code (p ∷ ps) d = ids_by_code ps (put p.code p.id d)

unfoldable pub get_permission_ids : List String → Action (List (String × ℕ))
unfolding ids_by_code contains
get_permission_ids [] = pure []
get_permission_ids (c ∷ cs) =
    gets (λ db. ids_by_code (select (λ p. contains p.code (c ∷ cs)) db.permissions) [])

abbrev unset : {A : Type 0} → Option A → Bool
unset none = true
unset (some a) = false

-- Nothing to set.
abbrev pub is_empty : RoleUpdate → Bool
is_empty d = unset d.display_name && unset d.description && unset d.is_active

abbrev sets_null : {A : Type 0} → Option (Option A) → Bool
sets_null none = false
sets_null (some none) = true
sets_null (some (some a)) = false

abbrev set_to : {A : Type 0} → Option (Option A) → A → A
set_to none old = old
set_to (some none) old = old
set_to (some (some a)) old = a

abbrev pub reread : ℕ → ℕ → Option RoleRow → Action (Option RoleView)
reread t id none = pure none
reread t id (some r) = get_by_id t id

abbrev pub grant : ℕ → ℕ → RolePermission
grant role_id permission_id = record { role_id = role_id; permission_id = permission_id }

module _ (eng : Engine) where
  abbrev pub role_row : ℕ → RoleCreate → Db → RoleRow
  role_row t d db = record {
    id = eng.new_id Stmt.insert_role db;
    tenant_id = some t;
    name = d.name;
    display_name = d.display_name;
    description = d.description;
    is_system_role = false;
    is_active = true;
    updated_at = eng.now;
  }

  unfoldable pub create : ℕ → RoleCreate → Action RoleView
  create t d = execute eng Stmt.insert_role (λ db.
      let row = role_row t d db in
      (
        record { role = row; permission_codes = []; assignee_count = 0 },
        record db { roles = row ∷ db.roles },
      ))

  -- The `SET` clauses that the request asks for.
  abbrev pub set_role : RoleUpdate → RoleRow → RoleRow
  set_role d r = record r {
    display_name = set_to d.display_name r.display_name;
    description = coalesce d.description r.description;
    is_active = set_to d.is_active r.is_active;
    updated_at = eng.now;
  }

  -- The UPDATE; `display_name` and `is_active` are NOT NULL, which a row that it finds would break.
  unfoldable pub write_role : ℕ → ℕ → RoleUpdate → Action (List RoleRow)
  write_role t id d db =
      if (sets_null d.display_name || sets_null d.is_active)
        && ltb 0 (length (select (is_custom_role t id) db.roles))
      then refuse (eng.null_refusal Stmt.update_role) db
      else execute eng Stmt.update_role
          (λ db'.
            let rows = update_where (is_custom_role t id) (set_role d) db'.roles in
            (select (is_custom_role t id) rows, record db' { roles = rows }))
          db

  unfoldable pub update : ℕ → ℕ → RoleUpdate → Action (Option RoleView)
  unfolding get_by_id write_role
  update t id d =
      if is_empty d
      then get_by_id t id
      else (do rows ← write_role t id d; updated ← one_or_none rows; reread t id updated)

  -- Left out where there is nothing to insert.
  unfoldable pub insert_grants : ℕ → List ℕ → Action (Unit {0})
  insert_grants id [] = pure tt
  insert_grants id (p ∷ ps) =
      execute eng Stmt.insert_role_permissions (λ db.
        (tt, record db { role_permissions = map (grant id) (p ∷ ps) ++ db.role_permissions }))

  unfoldable pub write_grants : ℕ → List ℕ → Action Bool
  unfolding insert_grants
  write_grants id ps = do
    execute eng Stmt.delete_role_permissions (λ db. (
      tt {0},
      record db { role_permissions = delete_where (λ g. g.role_id == id) db.role_permissions },
    ))
    insert_grants id ps
    pure true

  abbrev pub guarded : ℕ → List ℕ → Option RoleRow → Action Bool
  guarded id ps none = pure false
  guarded id ps (some r) = write_grants id ps

  unfoldable pub replace_permissions : ℕ → ℕ → List ℕ → Action Bool
  unfolding write_grants
  replace_permissions t id ps = do
    rows ← gets (λ db. select (is_custom_role t id) db.roles)
    guard ← one_or_none rows
    guarded id ps guard
