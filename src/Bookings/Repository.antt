-- ===== src/Bookings/Repository.antt =====
-- backend/app/bookings/repository.py.
use realesatecrm.Base.{ℕ, String, Text, Bool, ◌&&◌, Option, none, ◌∷◌, ◌==◌, select}
use realesatecrm.Db.Rows.{Db, Booking}
use realesatecrm.Db.Action.{Action, Stmt, Engine, ◌>>=◌, gets, one_or_none, execute}
use realesatecrm.Db.Table.{update_where, coalesce, in_scope}

-- PropertyBookingCreate
pub record BookingCreate : Type 0 where
  pub property_id : ℕ
  pub customer_id : ℕ
  pub lead_id : Option ℕ
  pub booking_date : Option ℕ
  pub booking_amount : ℕ
  pub notes : Option Text

-- PropertyBookingUpdate; `notes` is `none` where the request does not set the field.
pub record BookingUpdate : Type 0 where
  pub booking_status : Option String
  pub notes : Option (Option Text)

abbrev pub is_visible_booking : Option ℕ → ℕ → Booking → Bool
is_visible_booking scope id b = b.id == id && in_scope scope b.tenant_id

unfoldable pub get_by_id : Option ℕ → ℕ → Action (Option Booking)
get_by_id scope id = do
  rows ← gets (λ db. select (is_visible_booking scope id) db.bookings)
  one_or_none rows

module _ (eng : Engine) where
  abbrev pub booking_row : ℕ → Option ℕ → BookingCreate → Db → Booking
  booking_row t created_by d db = record {
    id = eng.new_id Stmt.insert_booking db;
    tenant_id = t;
    property_id = d.property_id;
    customer_id = d.customer_id;
    lead_id = d.lead_id;
    booking_date = coalesce d.booking_date eng.today;
    booking_amount = d.booking_amount;
    booking_status = "active";
    notes = d.notes;
    created_by = created_by;
    updated_at = eng.now;
  }

  unfoldable pub create : ℕ → Option ℕ → BookingCreate → Action Booking
  create t created_by d = execute eng Stmt.insert_booking (λ db.
      let row = booking_row t created_by d db in (row, record db { bookings = row ∷ db.bookings }))

  -- The `SET` clauses that the request asks for.
  abbrev pub set_notes_and_status : Option String → Option (Option Text) → Booking → Booking
  set_notes_and_status status notes b = record b {
    booking_status = coalesce status b.booking_status;
    notes = coalesce notes b.notes;
    updated_at = eng.now;
  }

  update_rows : Option ℕ → ℕ → Option String → Option (Option Text) → Action (Option Booking)
  update_rows scope id status notes = do
    rows ← execute eng Stmt.update_booking (λ db.
        let rows =
          update_where (is_visible_booking scope id) (set_notes_and_status status notes)
            db.bookings in
        (select (is_visible_booking scope id) rows, record db { bookings = rows }))
    one_or_none rows

  -- With nothing to set the row is only read.
  unfoldable pub update_notes_and_status :
      Option ℕ → ℕ → Option String → Option (Option Text) → Action (Option Booking)
  unfolding get_by_id update_rows
  update_notes_and_status scope id none none = get_by_id scope id
  update_notes_and_status scope id status notes = update_rows scope id status notes
