-- ===== src/Sales/Repository.antt =====
-- backend/app/sales/repository.py, class PropertySaleRepository: the statements of the sale
-- transaction.
use realesatecrm.Base.{ℕ, String, Bool, ◌&&◌, not, Option, none, some, ◌∷◌, ◌==◌, str_eq, select}
use realesatecrm.Db.Rows.{Db, Property, Lead, Booking, Sale, Ownership, Listing}
use realesatecrm.Db.Action.{Action, Stmt, Engine, ◌>>=◌, gets, one_or_none, execute}
use realesatecrm.Db.Checks.{is_live_property}
use realesatecrm.Db.Table.{update_where, is_null, coalesce, in_scope}

-- PropertySaleCreate
pub record SaleCreate : Type 0 where
  pub property_id : ℕ
  pub customer_id : ℕ
  pub booking_id : Option ℕ
  pub sale_date : Option ℕ
  pub sale_amount : ℕ
  pub discount_amount : ℕ
  pub tax_amount : ℕ
  pub purchase_purpose : Option String

unfoldable pub lock_property_for_update : ℕ → ℕ → Action (Option Property)
lock_property_for_update t id = do
  rows ← gets (λ db. select (is_live_property t id) db.properties)
  one_or_none rows

abbrev pub is_booking : ℕ → ℕ → Booking → Bool
is_booking t id b = b.id == id && b.tenant_id == t

unfoldable pub lock_booking_for_update : ℕ → ℕ → Action (Option Booking)
lock_booking_for_update t id = do
  rows ← gets (λ db. select (is_booking t id) db.bookings)
  one_or_none rows

-- The owner of record: the row whose period has no end.
abbrev pub is_current : ℕ → ℕ → Ownership → Bool
is_current t property_id o =
    o.property_id == property_id && o.tenant_id == t && is_null o.ownership_end_date

unfoldable pub get_active_ownership_for_update : ℕ → ℕ → Action (Option Ownership)
get_active_ownership_for_update t property_id = do
  rows ← gets (λ db. select (is_current t property_id) db.ownerships)
  one_or_none rows

abbrev pub is_convertible_lead : ℕ → ℕ → Lead → Bool
is_convertible_lead t id l =
    l.id == id && l.tenant_id == t && is_null l.deleted_at && not (str_eq l.status "converted")

abbrev pub is_open_listing_of : ℕ → ℕ → Listing → Bool
is_open_listing_of t ownership_id l =
    l.ownership_id == ownership_id && l.tenant_id == t && str_eq l.listing_status "open"

abbrev pub is_property : ℕ → ℕ → Property → Bool
is_property t id p = p.id == id && p.tenant_id == t

module _ (eng : Engine) where
  abbrev pub sale_row : ℕ → Option ℕ → SaleCreate → Db → Sale
  sale_row t created_by d db = record {
    id = eng.new_id Stmt.insert_sale db;
    tenant_id = t;
    booking_id = d.booking_id;
    property_id = d.property_id;
    customer_id = d.customer_id;
    sale_date = coalesce d.sale_date eng.today;
    sale_amount = d.sale_amount;
    discount_amount = d.discount_amount;
    tax_amount = d.tax_amount;
    sale_status = "active";
    created_by = created_by;
    updated_at = eng.now;
  }

  unfoldable pub insert_sale : ℕ → Option ℕ → SaleCreate → Action Sale
  insert_sale t created_by d =
      execute eng Stmt.insert_sale
        (λ db. let row = sale_row t created_by d db in (row, record db { sales = row ∷ db.sales }))

  abbrev pub convert_booking : Booking → Booking
  convert_booking b = record b { booking_status = "converted"; updated_at = eng.now }

  unfoldable pub mark_booking_converted : ℕ → ℕ → Action (Unit {0})
  mark_booking_converted t id = execute eng Stmt.mark_booking_converted (λ db.
      (tt, record db { bookings = update_where (is_booking t id) convert_booking db.bookings }))

  abbrev pub convert_lead : Lead → Lead
  convert_lead l = record l {
    status = "converted";
    converted_at = some eng.now;
    updated_at = eng.now;
  }

  unfoldable pub mark_lead_converted : ℕ → ℕ → Action (Unit {0})
  mark_lead_converted t id = execute eng Stmt.mark_lead_converted (λ db.
      (tt, record db { leads = update_where (is_convertible_lead t id) convert_lead db.leads }))

  abbrev pub end_ownership : ℕ → Ownership → Ownership
  end_ownership end_date o = record o { ownership_end_date = some end_date; updated_at = eng.now }

  -- The statement names the row by its id alone.
  unfoldable pub close_ownership : ℕ → ℕ → Action (Unit {0})
  close_ownership id end_date = execute eng Stmt.close_ownership (λ db. (
    tt,
    record db {
      ownerships = update_where (λ o. o.id == id) (end_ownership end_date) db.ownerships;
    },
  ))

  abbrev pub ownership_row :
      ℕ → ℕ → ℕ → ℕ → Option String → Option ℕ → ℕ → Option ℕ → Db → Ownership
  ownership_row t property_id customer_id sale_id purpose previous start created_by db = record {
    id = eng.new_id Stmt.insert_ownership db;
    tenant_id = t;
    property_id = property_id;
    customer_id = customer_id;
    sale_id = some sale_id;
    purchase_purpose = purpose;
    previous_ownership_id = previous;
    ownership_start_date = start;
    ownership_end_date = none;
    ownership_status = "active";
    created_by = created_by;
    verified_by = none;
    updated_at = eng.now;
  }

  unfoldable pub insert_ownership :
      ℕ → ℕ → ℕ → ℕ → Option String → Option ℕ → ℕ → Option ℕ → Action Ownership
  insert_ownership t property_id customer_id sale_id purpose previous start created_by =
      execute eng Stmt.insert_ownership (λ db.
        let row =
          ownership_row t property_id customer_id sale_id purpose previous start created_by db in
        (row, record db { ownerships = row ∷ db.ownerships }))

  abbrev pub convert_listing : Listing → Listing
  convert_listing l = record l { listing_status = "converted"; updated_at = eng.now }

  unfoldable pub close_open_resale_listing_for_ownership : ℕ → ℕ → Action (Unit {0})
  close_open_resale_listing_for_ownership t ownership_id =
      execute eng Stmt.close_open_listing (λ db. (
        tt,
        record db {
          listings = update_where (is_open_listing_of t ownership_id) convert_listing db.listings;
        },
      ))

  abbrev pub set_property_status : String → Property → Property
  set_property_status s p = record p { status = s; updated_at = eng.now }

  unfoldable pub update_property_status : ℕ → ℕ → String → Action (Unit {0})
  update_property_status t id s = execute eng Stmt.update_property_status (λ db. (
    tt,
    record db {
      properties = update_where (is_property t id) (set_property_status s) db.properties;
    },
  ))

-- The outer joins of `get_by_id` add display columns and keep one row for each sale.
unfoldable pub get_by_id : Option ℕ → ℕ → Action (Option Sale)
get_by_id scope id = do
  rows ← gets (λ db. select (λ (s : Sale). s.id == id && in_scope scope s.tenant_id) db.sales)
  one_or_none rows

module _ (eng : Engine) where
  abbrev pub set_sale_status : String → Sale → Sale
  set_sale_status status s = record s { sale_status = status; updated_at = eng.now }

  unfoldable pub update_status : Option ℕ → ℕ → String → Action (Option Sale)
  update_status scope id status = do
    rows ← execute eng Stmt.update_sale_status (λ db.
        let hit = λ (s : Sale). s.id == id && in_scope scope s.tenant_id in
        (
          select hit (update_where hit (set_sale_status status) db.sales),
          record db { sales = update_where hit (set_sale_status status) db.sales },
        ))
    one_or_none rows
