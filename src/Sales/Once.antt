-- ===== src/Sales/Once.antt =====
-- What cannot be sold or converted a second time.
use realesatecrm.Base.{
  ℕ, ◌≡◌, ◌≢◌, refl, ap, sym, ◌∙◌, subst, true, str_eq_iff, Option, none, some, [], ◌∷◌, arith,
  select, All,
}
use realesatecrm.Core.Errors.{ok}
use realesatecrm.Db.Rows.{Db, Booking, Ownership, Sale}
use realesatecrm.Db.Action.{Engine}
use realesatecrm.Db.Table.{All-select-update_where, select_head}
use realesatecrm.Db.Checks.{is_live_property}
use realesatecrm.Sales.Repository.{
  SaleCreate, is_property, set_property_status, is_booking, convert_booking, sale_row,
}
use realesatecrm.Sales.Service.{is_sellable, create_sale}
use realesatecrm.Sales.Steps.{SaleBooking, bookings_after, closed_db}
use realesatecrm.Sales.Transaction.{create_sale-ok, converted, before_transfer}

pub closed_db-bookings :
    (eng : Engine) (t sale_date : ℕ) (o : Option Ownership) (db : Db)
    → (closed_db eng t sale_date o db).bookings ≡ db.bookings
closed_db-bookings eng t sale_date none db = refl
closed_db-bookings eng t sale_date (some o) db = refl

bookings_after-converted :
    (eng : Engine) (t : ℕ) (d : SaleCreate) (b : Option Booking) (db : Db) (id : ℕ)
    → SaleBooking t d db b
    → d.booking_id ≡ some id
    → All
        (λ r. r.booking_status ≡ "converted")
        (select (is_booking t id) (bookings_after eng t b db.bookings))
bookings_after-converted eng t d none db id h e = absurd (cc)
bookings_after-converted eng t d (some b) db id (id', e', found, _, _) e =
    let is_found = select_head (is_booking t id') db.bookings b [] found in
    let same : b.id ≡ id = ground arith in
    All-select-update_where (is_booking t id) (is_booking t b.id) (convert_booking eng)
      (λ r. r.booking_status ≡ "converted") db.bookings (λ r k. rw same k) (λ r k. refl)

module _ (eng : Engine) (t : ℕ) (created_by : Option ℕ) (d : SaleCreate) where
  -- The property's row says 'sold' after the sale.
  pub create_sale-sold :
      (db : Db) {s : Sale} {db' : Db}
      → create_sale eng t created_by d db ≡ (ok s, db')
      → All (λ p. p.status ≡ "sold") (select (is_live_property t d.property_id) db'.properties)
  create_sale-sold db h =
      let sold = create_sale-ok eng t created_by d db h in
      subst
        (λ x. All (λ p. p.status ≡ "sold") (select (is_live_property t d.property_id) x.properties))
        (sym sold.result)
        (All-select-update_where (is_live_property t d.property_id) (is_property t d.property_id)
          (set_property_status eng "sold") (λ p. p.status ≡ "sold")
          (before_transfer eng t created_by d sold.booking sold.previous db).properties
          (λ r e. ground arith) (λ r e. refl))

  -- Every booking that the sale named is 'converted' after it.
  pub create_sale-converted :
      (db : Db) (id : ℕ) {s : Sale} {db' : Db}
      → create_sale eng t created_by d db ≡ (ok s, db')
      → d.booking_id ≡ some id
      → All (λ b. b.booking_status ≡ "converted") (select (is_booking t id) db'.bookings)
  create_sale-converted db id h named =
      let sold = create_sale-ok eng t created_by d db h in
      let row = sale_row eng t created_by d db in
      let mid = converted eng t created_by d sold.booking db in
      subst (λ x. All (λ b. b.booking_status ≡ "converted") (select (is_booking t id) x))
        (sym (closed_db-bookings eng t row.sale_date sold.previous mid)
          ∙ ap (λ (x : Db). x.bookings) (sym sold.result))
        (bookings_after-converted eng t d sold.booking db id sold.found_booking named)

-- A property that has been sold is not sold again: on the database that the sale has left, no
-- sale of the property returns, whatever it asks for.
pub no_double_sale :
    (eng eng' : Engine) (t : ℕ) (by by' : Option ℕ) (d d' : SaleCreate) (db : Db) {s : Sale}
    {db' : Db}
    → create_sale eng t by d db ≡ (ok s, db')
    → d'.property_id ≡ d.property_id
    → (s' : Sale) → (create_sale eng' t by' d' db').0 ≢ ok s'
no_double_sale eng eng' t by by' d d' db {s} {db'} h same s' h' =
    let again =
      create_sale-ok eng' t by' d' db' {s = s'} {db' = (create_sale eng' t by' d' db').1}
        (λ i. (h' i, (create_sale eng' t by' d' db').1)) in
    let found : select (is_live_property t d.property_id) db'.properties ≡ again.property ∷ [] =
      subst (λ p. select (is_live_property t p) db'.properties ≡ again.property ∷ []) same
        again.found_property in
    let is_sold : again.property.status ≡ "sold" =
      (subst (All (λ p. p.status ≡ "sold")) found (create_sale-sold eng t by d db h)).0 in
    let sellable : is_sellable "sold" ≡ true =
      subst (λ x. is_sellable x ≡ true) is_sold again.sellable in
    cc

-- A booking that a sale has converted is not converted again: on the database that the sale
-- has left, no sale that names the booking returns.
pub no_double_conversion :
    (eng eng' : Engine) (t : ℕ) (by by' : Option ℕ) (d d' : SaleCreate) (db : Db) (id : ℕ)
    {s : Sale} {db' : Db}
    → create_sale eng t by d db ≡ (ok s, db')
    → d.booking_id ≡ some id
    → d'.booking_id ≡ some id
    → (s' : Sale) → (create_sale eng' t by' d' db').0 ≢ ok s'
no_double_conversion eng eng' t by by' d d' db id {s} {db'} h named named' s' h' =
    let again =
      create_sale-ok eng' t by' d' db' {s = s'} {db' = (create_sale eng' t by' d' db').1}
        (λ i. (h' i, (create_sale eng' t by' d' db').1)) in
    not_active again.booking again.found_booking
  where
    not_active : (o : Option Booking) → SaleBooking t d' db' o → ⊥
    not_active none none_named = cc
    not_active (some b) (id', e, found, _, active) =
        let all : All (λ r. r.booking_status ≡ "converted")
            (select (is_booking t id') db'.bookings) =
          subst
            (λ x. All (λ r. r.booking_status ≡ "converted") (select (is_booking t x) db'.bookings))
            (ground arith) (create_sale-converted eng t by d db id h named) in
        let converted_now = (subst (All (λ r. r.booking_status ≡ "converted")) found all).0 in
        ground (arith, str_eq_iff "converted" "active")
