-- ===== src/Ownerships/Service.antt =====
-- backend/app/ownerships/service.py, class PropertyOwnershipService. The returned response is the
-- row.
use realesatecrm.Base.{
  ℕ, String, Bool, not, ◌&&◌, ◌||◌, Option, none, some, List, str_eq, if◌then◌else◌,
}
use realesatecrm.Core.Errors.{AppError, DbError, Raised, app, mentions, clean_error}
use realesatecrm.Db.Rows.{Ownership, CoOwner}
use realesatecrm.Db.Action.{Action, Engine, ◌>>=◌, ◌>>◌, pure, raise_if, or_raise, except_dbapi}
use realesatecrm.Db.Checks.{validate_customer}
use realesatecrm.Ownerships.Repository.{
  OwnershipUpdate, CoOwnerCreate, get_by_id, get_current_for_property, co_owner_rows, update,
  insert_co_owner, delete_co_owner,
}

abbrev pub ownership_not_found : AppError
ownership_not_found = AppError.not_found "OWNERSHIP_NOT_FOUND"

unfoldable pub get_current : Option ℕ → ℕ → Action Ownership
unfolding get_current_for_property
get_current scope property_id = do
  row ← get_current_for_property scope property_id
  or_raise row (AppError.not_found "NO_CURRENT_OWNER")

unfoldable pub get_ownership : Option ℕ → ℕ → Action Ownership
unfolding get_by_id
get_ownership scope id = do row ← get_by_id scope id; or_raise row ownership_not_found

-- The guards on a requested status.
unfoldable pub check_status_change : Option String → Ownership → Action (Unit {0})
check_status_change none existing = pure tt
check_status_change (some status) existing = do
  raise_if (not (str_eq status "reversed"))
      (AppError.validation "INVALID_OWNERSHIP_STATUS_TRANSITION")
  raise_if (not (str_eq existing.ownership_status "active"))
      (AppError.conflict "OWNERSHIP_ALREADY_REVERSED")

-- `sqlstate == _CO_OWNER_SHARE_EXCEEDED_ERRCODE`
abbrev pub has_sqlstate : DbError → String → Bool
has_sqlstate e code = elim e.sqlstate [ none ↦ Bool.false | some s ↦ str_eq s code ]

-- The `except DBAPIError` clause of `add_co_owner`.
unfoldable pub co_owner_error : DbError → Raised
co_owner_error e =
    if has_sqlstate e "P0004" || mentions e "exceeds 100"
    then app (AppError.conflict "CO_OWNER_SHARE_EXCEEDS_100")
    else if mentions e "uq_co_owners_ownership_customer"
        || (mentions e "duplicate key" && mentions e "customer")
    then app (AppError.conflict "DUPLICATE_CO_OWNER")
    else clean_error e

unfoldable pub list_co_owners : ℕ → ℕ → Action (List CoOwner)
unfolding get_by_id co_owner_rows
list_co_owners t ownership_id = do
  row ← get_by_id (some t) ownership_id
  or_raise row ownership_not_found
  co_owner_rows t ownership_id

module _ (eng : Engine) where
  unfoldable pub update_ownership : Option ℕ → ℕ → OwnershipUpdate → Action Ownership
  unfolding get_by_id check_status_change update
  update_ownership scope id d = do
    row ← get_by_id scope id
    existing ← or_raise row ownership_not_found
    check_status_change d.ownership_status existing
    updated ← except_dbapi (update eng scope id d.verified_by d.ownership_status) clean_error
    or_raise updated ownership_not_found

  unfoldable pub add_co_owner : ℕ → ℕ → CoOwnerCreate → Action CoOwner
  unfolding get_by_id validate_customer insert_co_owner
  add_co_owner t ownership_id d = do
    row ← get_by_id (some t) ownership_id
    or_raise row ownership_not_found
    validate_customer t d.customer_id
    except_dbapi (insert_co_owner eng t ownership_id d) co_owner_error

  unfoldable pub remove_co_owner : ℕ → ℕ → ℕ → Action (Unit {0})
  unfolding delete_co_owner
  remove_co_owner t ownership_id id = do
    success ← delete_co_owner eng t ownership_id id
    raise_if (not success) (AppError.not_found "CO_OWNER_NOT_FOUND")
