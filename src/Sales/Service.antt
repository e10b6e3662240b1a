-- ===== src/Sales/Service.antt =====
-- backend/app/sales/service.py, class PropertySaleService: `create_sale`, step by step as in its
-- `atomic` block, and `update_sale`. The returned response is the row.
use realesatecrm.Base.{ℕ, String, Bool, ◌||◌, not, Option, none, some, ◌==◌, str_eq, if◌then◌else◌}
use realesatecrm.Core.Errors.{AppError, DbError, Raised, app, mentions}
use realesatecrm.Db.Rows.{Property, Booking, Sale, Ownership}
use realesatecrm.Db.Action.{
  Action, Engine, ◌>>=◌, ◌>>◌, pure, raise_if, or_raise, atomic, except_dbapi,
}
use realesatecrm.Db.Checks.{validate_customer}
use realesatecrm.Sales.Repository.{
  SaleCreate, lock_property_for_update, lock_booking_for_update, get_active_ownership_for_update,
  insert_sale, mark_booking_converted, mark_lead_converted, close_ownership, insert_ownership,
  close_open_resale_listing_for_ownership, update_property_status, get_by_id, update_status,
}

-- `status in _SELLABLE_PROPERTY_STATUSES`
abbrev pub is_sellable : String → Bool
is_sellable s = str_eq s "reserved" || str_eq s "hold"

-- Step 1 of `create_sale`: lock the property and check its status.
unfoldable pub lock_sellable_property : ℕ → ℕ → Action Property
unfolding lock_property_for_update
lock_sellable_property t id = do
  found ← lock_property_for_update t id
  prop ← or_raise found (AppError.not_found "PROPERTY_NOT_FOUND")
  raise_if (not (is_sellable prop.status)) (AppError.conflict "PROPERTY_NOT_RESERVED")
  pure prop

-- Step 2, first half: lock the booking, if one is named, and check it.
unfoldable pub lock_sale_booking : ℕ → SaleCreate → Action (Option Booking)
unfolding lock_booking_for_update
lock_sale_booking t d = elim d.booking_id [
  | none ↦ pure none
  | some id ↦ do
    found ← lock_booking_for_update t id
    booking ← or_raise found (AppError.not_found "PROPERTY_BOOKING_NOT_FOUND")
    raise_if (not (booking.property_id == d.property_id))
        (AppError.validation "BOOKING_PROPERTY_MISMATCH")
    raise_if (not (str_eq booking.booking_status "active")) (AppError.conflict "BOOKING_NOT_ACTIVE")
    pure (some booking)
]

-- The `except DBAPIError` clause of `create_sale`.
unfoldable pub sale_error : DbError → Raised
sale_error e =
    if mentions e "invalid input value for enum" || mentions e "invalid input syntax"
    then app (AppError.validation "INVALID_FIELD_VALUE")
    else if mentions e "violates check constraint"
    then app (AppError.validation "CHECK_CONSTRAINT_VIOLATION")
    else app (AppError.conflict "SALE_CREATION_CONFLICT")

-- `sale_status in _VALID_SALE_STATUS_TRANSITIONS`
abbrev pub is_sale_ending : String → Bool
is_sale_ending s = str_eq s "cancelled" || str_eq s "reversed"

unfoldable pub get_sale : Option ℕ → ℕ → Action Sale
unfolding get_by_id
get_sale scope id = do
  row ← get_by_id scope id
  or_raise row (AppError.not_found "PROPERTY_SALE_NOT_FOUND")

module _ (eng : Engine) where
  convert_lead_of : ℕ → Option ℕ → Action (Unit {0})
  unfolding mark_lead_converted
  convert_lead_of t none = pure tt
  convert_lead_of t (some lead) = mark_lead_converted eng t lead

  -- Step 2, second half: convert the booking and the lead that it came from.
  unfoldable pub convert_sale_booking : ℕ → Option Booking → Action (Unit {0})
  unfolding mark_booking_converted convert_lead_of
  convert_sale_booking t none = pure tt
  convert_sale_booking t (some b) = mark_booking_converted eng t b.id >> convert_lead_of t b.lead_id

  close_period : ℕ → ℕ → Option Ownership → Action (Option ℕ)
  unfolding close_ownership close_open_resale_listing_for_ownership
  close_period t sale_date none = pure none
  close_period t sale_date (some o) = do
    close_ownership eng o.id sale_date
    close_open_resale_listing_for_ownership eng t o.id
    pure (some o.id)

  -- Step 3, first half: close the current owner's period, and give its id.
  unfoldable pub close_previous_ownership : ℕ → ℕ → ℕ → Action (Option ℕ)
  unfolding get_active_ownership_for_update close_period
  close_previous_ownership t property_id sale_date = do
    active ← get_active_ownership_for_update t property_id
    close_period t sale_date active

  -- Step 3, second half, and step 4: the buyer's ownership row, and the property's status.
  unfoldable pub hand_over : ℕ → Option ℕ → SaleCreate → Sale → Option ℕ → Action Sale
  unfolding insert_ownership update_property_status
  hand_over t created_by d sale previous = do
    insert_ownership eng t d.property_id d.customer_id sale.id d.purchase_purpose previous
        sale.sale_date created_by
    update_property_status eng t d.property_id "sold"
    pure sale

  unfoldable pub replace_owner : ℕ → Option ℕ → SaleCreate → Sale → Action Sale
  replace_owner t created_by d sale =
      close_previous_ownership t d.property_id sale.sale_date >>= hand_over t created_by d sale

  unfoldable pub settle_sale : ℕ → Option ℕ → SaleCreate → Option Booking → Sale → Action Sale
  settle_sale t created_by d booking sale =
      convert_sale_booking t booking >> replace_owner t created_by d sale

  unfoldable pub record_sale : ℕ → Option ℕ → SaleCreate → Option Booking → Action Sale
  record_sale t created_by d booking =
      insert_sale eng t created_by d >>= settle_sale t created_by d booking

  -- The body of the `atomic` block.
  unfoldable pub sale_transaction : ℕ → Option ℕ → SaleCreate → Action Sale
  sale_transaction t created_by d =
      lock_sellable_property t d.property_id
      >> (lock_sale_booking t d >>= record_sale t created_by d)

  unfoldable pub create_sale : ℕ → Option ℕ → SaleCreate → Action Sale
  create_sale t created_by d = do
    validate_customer t d.customer_id
    except_dbapi (atomic (sale_transaction t created_by d)) sale_error

  unfoldable pub update_sale : Option ℕ → ℕ → String → Action Sale
  unfolding get_by_id update_status
  update_sale scope id status = do
    raise_if (not (is_sale_ending status)) (AppError.validation "INVALID_SALE_STATUS_TRANSITION")
    found ← get_by_id scope id
    existing ← or_raise found (AppError.not_found "PROPERTY_SALE_NOT_FOUND")
    raise_if (not (str_eq existing.sale_status "active")) (AppError.conflict "SALE_NOT_ACTIVE")
    updated ← update_status eng scope id status
    or_raise updated (AppError.not_found "PROPERTY_SALE_NOT_FOUND")
