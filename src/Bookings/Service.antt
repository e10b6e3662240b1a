-- ===== src/Bookings/Service.antt =====
-- backend/app/bookings/service.py: creating, reading and cancelling bookings. The returned response
-- is the row.
use realesatecrm.Base.{ℕ, String, not, Option, none, some, str_eq}
use realesatecrm.Core.Errors.{AppError, clean_error}
use realesatecrm.Db.Rows.{Booking}
use realesatecrm.Db.Action.{Action, Engine, ◌>>=◌, ◌>>◌, pure, raise_if, or_raise, except_dbapi}
use realesatecrm.Db.Checks.{validate_customer, validate_property, validate_lead}
use realesatecrm.Bookings.Repository.{
  BookingCreate, BookingUpdate, create, get_by_id, update_notes_and_status,
}

abbrev pub booking_not_found : AppError
booking_not_found = AppError.not_found "PROPERTY_BOOKING_NOT_FOUND"

-- `if data.lead_id is not None: await self._validate_lead(…)`
unfoldable pub validate_optional_lead : ℕ → Option ℕ → Action (Unit {0})
unfolding validate_lead
validate_optional_lead t none = pure tt
validate_optional_lead t (some id) = validate_lead t id >> pure tt

unfoldable pub get_booking : Option ℕ → ℕ → Action Booking
unfolding get_by_id
get_booking scope id = do row ← get_by_id scope id; or_raise row booking_not_found

-- The guards on a requested status.
unfoldable pub check_status_change : Option String → Booking → Action (Unit {0})
check_status_change none existing = pure tt
check_status_change (some status) existing = do
  raise_if (not (str_eq status "cancelled"))
      (AppError.validation "INVALID_BOOKING_STATUS_TRANSITION")
  raise_if (not (str_eq existing.booking_status "active")) (AppError.conflict "BOOKING_NOT_ACTIVE")

module _ (eng : Engine) where
  unfoldable pub create_booking : ℕ → Option ℕ → BookingCreate → Action Booking
  unfolding validate_property validate_customer validate_optional_lead create
  create_booking t created_by d = do
    validate_property t d.property_id
    validate_customer t d.customer_id
    validate_optional_lead t d.lead_id
    except_dbapi (create eng t created_by d) clean_error

  unfoldable pub update_booking : Option ℕ → ℕ → BookingUpdate → Action Booking
  unfolding get_by_id check_status_change update_notes_and_status
  update_booking scope id d = do
    row ← get_by_id scope id
    existing ← or_raise row booking_not_found
    check_status_change d.booking_status existing
    updated ←
        except_dbapi (update_notes_and_status eng scope id d.booking_status d.notes) clean_error
    or_raise updated booking_not_found
