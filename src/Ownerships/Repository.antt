-- ===== src/Ownerships/Repository.antt =====
-- backend/app/ownerships/repository.py, class PropertyOwnershipRepository: the ownership records and
-- their co-owners. Joined display columns are left out.
use realesatecrm.Base.{
  ℕ, String, Text, Bool, ◌&&◌, Option, none, List, ◌∷◌, ◌==◌, ltb, select, length,
}
use realesatecrm.Db.Rows.{Db, Ownership, CoOwner}
use realesatecrm.Db.Action.{Action, Stmt, Engine, ◌>>=◌, gets, one_or_none, execute}
use realesatecrm.Db.Table.{update_where, delete_where, coalesce, in_scope, is_null}

-- PropertyOwnershipUpdate; `verified_by` is `none` where the request does not set the field.
pub record OwnershipUpdate : Type 0 where
  pub verified_by : Option (Option ℕ)
  pub ownership_status : Option String

-- PropertyOwnershipCoOwnerCreate
pub record CoOwnerCreate : Type 0 where
  pub customer_id : ℕ
  pub role : Option Text
  pub share_percentage : Option ℕ

abbrev pub is_visible_ownership : Option ℕ → ℕ → Ownership → Bool
is_visible_ownership scope id o = o.id == id && in_scope scope o.tenant_id

unfoldable pub get_by_id : Option ℕ → ℕ → Action (Option Ownership)
get_by_id scope id = do
  rows ← gets (λ db. select (is_visible_ownership scope id) db.ownerships)
  one_or_none rows

abbrev pub is_current_in : Option ℕ → ℕ → Ownership → Bool
is_current_in scope property_id o =
    o.property_id == property_id && is_null o.ownership_end_date && in_scope scope o.tenant_id

unfoldable pub get_current_for_property : Option ℕ → ℕ → Action (Option Ownership)
get_current_for_property scope property_id = do
  rows ← gets (λ db. select (is_current_in scope property_id) db.ownerships)
  one_or_none rows

abbrev pub is_co_owner_of : ℕ → ℕ → CoOwner → Bool
is_co_owner_of t ownership_id c = c.ownership_id == ownership_id && c.tenant_id == t

abbrev pub is_co_owner : ℕ → ℕ → ℕ → CoOwner → Bool
is_co_owner t ownership_id id c = c.id == id && c.ownership_id == ownership_id && c.tenant_id == t

-- The rows, in the order that the database gives them.
unfoldable pub co_owner_rows : ℕ → ℕ → Action (List CoOwner)
co_owner_rows t ownership_id = gets (λ db. select (is_co_owner_of t ownership_id) db.co_owners)

unfoldable pub get_co_owner : ℕ → ℕ → ℕ → Action (Option CoOwner)
get_co_owner t ownership_id id = do
  rows ← gets (λ db. select (is_co_owner t ownership_id id) db.co_owners)
  one_or_none rows

module _ (eng : Engine) where
  -- The `SET` clauses that the request asks for.
  abbrev pub set_ownership : Option (Option ℕ) → Option String → Ownership → Ownership
  set_ownership verified_by status o = record o {
    ownership_status = coalesce status o.ownership_status;
    verified_by = coalesce verified_by o.verified_by;
    updated_at = eng.now;
  }

  update_rows : Option ℕ → ℕ → Option (Option ℕ) → Option String → Action (Option Ownership)
  update_rows scope id verified_by status = do
    rows ← execute eng Stmt.update_ownership (λ db.
        let rows =
          update_where (is_visible_ownership scope id) (set_ownership verified_by status)
            db.ownerships in
        (select (is_visible_ownership scope id) rows, record db { ownerships = rows }))
    one_or_none rows

  -- With nothing to set the row is only read.
  unfoldable pub update :
      Option ℕ → ℕ → Option (Option ℕ) → Option String → Action (Option Ownership)
  unfolding get_by_id update_rows
  update scope id none none = get_by_id scope id
  update scope id verified_by status = update_rows scope id verified_by status

  abbrev pub co_owner_row : ℕ → ℕ → CoOwnerCreate → Db → CoOwner
  co_owner_row t ownership_id d db = record {
    id = eng.new_id Stmt.insert_co_owner db;
    tenant_id = t;
    ownership_id = ownership_id;
    customer_id = d.customer_id;
    role = d.role;
    share_percentage = d.share_percentage;
  }

  unfoldable pub insert_co_owner : ℕ → ℕ → CoOwnerCreate → Action CoOwner
  insert_co_owner t ownership_id d = execute eng Stmt.insert_co_owner (λ db.
      let row = co_owner_row t ownership_id d db in
      (row, record db { co_owners = row ∷ db.co_owners }))

  -- `rowcount > 0`
  unfoldable pub delete_co_owner : ℕ → ℕ → ℕ → Action Bool
  delete_co_owner t ownership_id id = execute eng Stmt.delete_co_owner (λ db. (
    ltb 0 (length (select (is_co_owner t ownership_id id) db.co_owners)),
    record db { co_owners = delete_where (is_co_owner t ownership_id id) db.co_owners },
  ))
