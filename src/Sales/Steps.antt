-- ===== src/Sales/Steps.antt =====
-- What each step of the sale transaction has found and written when it returns.
use realesatecrm.Base.{
  ℕ, ◌≡◌, refl, true, Option, none, some, List, [], ◌∷◌, arith, select, String, str_eq_iff, ◌==◌,
}
use realesatecrm.Core.Errors.{ok}
use realesatecrm.Db.Rows.{Db, Property, Booking, Sale, Ownership, Lead}
use realesatecrm.Db.Action.{Engine}
use realesatecrm.Db.Checks.{is_live_property}
use realesatecrm.Db.Table.{update_where}
use realesatecrm.Sales.Repository.{
  SaleCreate, is_booking, is_current, is_open_listing_of, is_convertible_lead, sale_row,
  convert_booking, convert_lead, end_ownership, ownership_row, convert_listing, set_property_status,
  is_property, insert_sale, insert_ownership, update_property_status,
}
use realesatecrm.Sales.Service.{
  is_sellable, lock_sellable_property, lock_sale_booking, convert_sale_booking,
  close_previous_ownership,
}

pub lock_sellable_property-ok :
    (t id : ℕ) (db : Db) {p : Property} {db' : Db}
    → lock_sellable_property t id db ≡ (ok p, db')
    → (db' ≡ db)
      × (select (is_live_property t id) db.properties ≡ p ∷ [])
      × (is_sellable p.status ≡ true)
unfolding lock_sellable_property
lock_sellable_property-ok t id db h = ground arith

-- The booking that the sale converts, if the request names one.
abbrev pub SaleBooking : ℕ → SaleCreate → Db → Option Booking → Type 0
SaleBooking t d db none = d.booking_id ≡ none
SaleBooking t d db (some b) =
    (id : ℕ) × (d.booking_id ≡ some id)
    × (select (is_booking t id) db.bookings ≡ b ∷ [])
    × (b.property_id ≡ d.property_id)
    × (b.booking_status ≡ "active")

pub lock_sale_booking-ok :
    (t : ℕ) (d : SaleCreate) (db : Db) (o : Option Booking) {db' : Db}
    → lock_sale_booking t d db ≡ (ok o, db')
    → (db' ≡ db) × SaleBooking t d db o
unfolding lock_sale_booking
lock_sale_booking-ok t d db none h = ground arith
lock_sale_booking-ok t d db (some b) h = ground (arith, str_eq_iff b.booking_status "active")

abbrev pub lead_of : Option Booking → Option ℕ
lead_of none = none
lead_of (some b) = b.lead_id

-- The owner of record before the sale, if there was one.
abbrev pub PreviousOwner : ℕ → ℕ → Db → Option Ownership → Type 0
PreviousOwner t p db none = select (is_current t p) db.ownerships ≡ []
PreviousOwner t p db (some o) = select (is_current t p) db.ownerships ≡ o ∷ []

abbrev pub id_of : Option Ownership → Option ℕ
id_of none = none
id_of (some o) = some o.id

module _ (eng : Engine) where
  pub insert_sale-ok :
      (t : ℕ) (created_by : Option ℕ) (d : SaleCreate) (db : Db) {s : Sale} {db' : Db}
      → insert_sale eng t created_by d db ≡ (ok s, db')
      → (s ≡ sale_row eng t created_by d db) × (db' ≡ record db { sales = s ∷ db.sales })
  unfolding insert_sale
  insert_sale-ok t created_by d db h = ground arith

  -- The database once the booking and its lead are converted.
  abbrev pub leads_after : ℕ → Option ℕ → List Lead → List Lead
  leads_after t none ls = ls
  leads_after t (some id) ls = update_where (is_convertible_lead t id) (convert_lead eng) ls

  abbrev pub bookings_after : ℕ → Option Booking → List Booking → List Booking
  bookings_after t none bs = bs
  bookings_after t (some b) bs = update_where (is_booking t b.id) (convert_booking eng) bs

  abbrev pub converted_db : ℕ → Option Booking → Db → Db
  converted_db t o db = record db {
    bookings = bookings_after t o db.bookings;
    leads = leads_after t (lead_of o) db.leads;
  }

  pub convert_sale_booking-ok :
      (t : ℕ) (o : Option Booking) (db : Db) {u : Unit {0}} {db' : Db}
      → convert_sale_booking eng t o db ≡ (ok u, db')
      → db' ≡ converted_db t o db
  unfolding convert_sale_booking
  convert_sale_booking-ok t none db h = ground arith
  convert_sale_booking-ok t (some b) db h = ground arith

  -- The database once the previous owner's period is closed.
  abbrev pub closed_db : ℕ → ℕ → Option Ownership → Db → Db
  closed_db t sale_date none db = db
  closed_db t sale_date (some o) db = record db {
    ownerships = update_where (λ r. r.id == o.id) (end_ownership eng sale_date) db.ownerships;
    listings = update_where (is_open_listing_of t o.id) (convert_listing eng) db.listings;
  }

  pub close_previous_ownership-ok :
      (t p sale_date : ℕ) (db : Db) {previous : Option ℕ} {db' : Db}
      → close_previous_ownership eng t p sale_date db ≡ (ok previous, db')
      → (o : Option Ownership) × PreviousOwner t p db o
        × (previous ≡ id_of o)
        × (db' ≡ closed_db t sale_date o db)
  unfolding close_previous_ownership
  close_previous_ownership-ok t p sale_date db {previous} {db'} h =
      go (select (is_current t p) db.ownerships) refl
    where
      go :
          (rows : List Ownership)
          → select (is_current t p) db.ownerships ≡ rows
          → (o : Option Ownership) × PreviousOwner t p db o
            × (previous ≡ id_of o)
            × (db' ≡ closed_db t sale_date o db)
      go [] e = (none, e, ground arith, ground arith)
      go (o ∷ []) e = (some o, e, ground arith, ground arith)
      go (o ∷ o' ∷ r) e = absurd (ground arith)

  pub insert_ownership-ok :
      (t p c s : ℕ) (purpose : Option String) (previous : Option ℕ) (start : ℕ) (by : Option ℕ)
      (db : Db) {row : Ownership} {db' : Db}
      → insert_ownership eng t p c s purpose previous start by db ≡ (ok row, db')
      → (row ≡ ownership_row eng t p c s purpose previous start by db)
        × (db' ≡ record db { ownerships = row ∷ db.ownerships })
  unfolding insert_ownership
  insert_ownership-ok t p c s purpose previous start by db h = ground arith

  pub update_property_status-ok :
      (t id : ℕ) (status : String) (db : Db) {u : Unit {0}} {db' : Db}
      → update_property_status eng t id status db ≡ (ok u, db')
      → db' ≡ record db {
        properties = update_where (is_property t id) (set_property_status eng status) db.properties;
      }
  unfolding update_property_status
  update_property_status-ok t id status db h = ground arith
