-- ===== src/Sales/Transaction.antt =====
-- The whole sale transaction of backend/app/sales/service.py: what a `create_sale` that returns has
-- found, and the database that it leaves.
use realesatecrm.Base.{ℕ, ◌≡◌, ap, ap₂, sym, subst, ◌∙◌, true, Option, [], ◌∷◌, arith, select}
use realesatecrm.Core.Errors.{ok}
use realesatecrm.Db.Rows.{Db, Property, Booking, Sale, Ownership}
use realesatecrm.Db.Action.{Engine, ◌>>=◌, atomic, except_dbapi}
use realesatecrm.Db.Inversion.{>>=-ok-elim, atomic-eq-ok, except_dbapi-eq-ok}
use realesatecrm.Db.Checks.{is_live_property, validate_customer, validate_customer-ok}
use realesatecrm.Db.Table.{update_where}
use realesatecrm.Sales.Repository.{
  SaleCreate, sale_row, ownership_row, set_property_status, is_property, insert_sale,
}
use realesatecrm.Sales.Service.{
  is_sellable, lock_sellable_property, lock_sale_booking, convert_sale_booking,
  close_previous_ownership, hand_over, replace_owner, settle_sale, record_sale, sale_transaction,
  sale_error, create_sale,
}
use realesatecrm.Sales.Steps.{
  SaleBooking, converted_db, PreviousOwner, id_of, closed_db, lock_sellable_property-ok,
  lock_sale_booking-ok, insert_sale-ok, convert_sale_booking-ok, close_previous_ownership-ok,
}

module _ (eng : Engine) (t : ℕ) (created_by : Option ℕ) (d : SaleCreate) where
  -- The database after the sale row, the conversions and the closing of the old period.
  abbrev pub converted : Option Booking → Db → Db
  converted b db =
      converted_db eng t b (record db { sales = sale_row eng t created_by d db ∷ db.sales })

  abbrev pub before_transfer : Option Booking → Option Ownership → Db → Db
  before_transfer b o db =
      closed_db eng t (sale_row eng t created_by d db).sale_date o (converted b db)

  -- The buyer's row of the ownership ledger.
  abbrev pub new_ownership : Sale → Option ℕ → Db → Ownership
  new_ownership s previous db =
      ownership_row eng t d.property_id d.customer_id s.id d.purchase_purpose previous s.sale_date
        created_by db

  abbrev pub handed_over : Sale → Option ℕ → Db → Db
  handed_over s previous db = record db {
    ownerships = new_ownership s previous db ∷ db.ownerships;
    properties =
        update_where (is_property t d.property_id) (set_property_status eng "sold") db.properties;
  }

  abbrev settled : Sale → Option Booking → Option Ownership → Db → Db
  settled s b o db =
      handed_over s (id_of o) (closed_db eng t s.sale_date o (converted_db eng t b db))

  abbrev pub sold_db : Option Booking → Option Ownership → Db → Db
  sold_db b o db = handed_over (sale_row eng t created_by d db) (id_of o) (before_transfer b o db)

  pub record Sold (db : Db) (s : Sale) (db' : Db) : Type 0 where
    pub property : Property
    pub booking : Option Booking
    pub previous : Option Ownership
    pub found_property : select (is_live_property t d.property_id) db.properties ≡ property ∷ []
    pub sellable : is_sellable property.status ≡ true
    pub found_booking : SaleBooking t d db booking
    pub found_previous : PreviousOwner t d.property_id (converted booking db) previous
    pub is_sale_row : s ≡ sale_row eng t created_by d db
    pub result : db' ≡ sold_db booking previous db

  hand_over-ok :
      (sale : Sale) (previous : Option ℕ) (db : Db) {s : Sale} {db' : Db}
      → hand_over eng t created_by d sale previous db ≡ (ok s, db')
      → (s ≡ sale) × (db' ≡ handed_over sale previous db)
  unfolding hand_over
  hand_over-ok sale previous db h = ground arith

  replace_owner-ok :
      (sale : Sale) (db : Db) {s : Sale} {db' : Db}
      → replace_owner eng t created_by d sale db ≡ (ok s, db')
      → (o : Option Ownership) × PreviousOwner t d.property_id db o
        × (s ≡ sale)
        × (db' ≡ handed_over sale (id_of o) (closed_db eng t sale.sale_date o db))
  unfolding replace_owner
  replace_owner-ok sale db h =
      >>=-ok-elim (close_previous_ownership eng t d.property_id sale.sale_date)
        (hand_over eng t created_by d sale) db h
        λ previous db1 e1 h1.
          let (o, found, is_id, closed) =
            close_previous_ownership-ok eng t d.property_id sale.sale_date db e1 in
          let (same, done) = hand_over-ok sale previous db1 h1 in
          (o, found, same, done ∙ ap₂ (handed_over sale) is_id closed)

  settle_sale-ok :
      (b : Option Booking) (sale : Sale) (db : Db) {s : Sale} {db' : Db}
      → settle_sale eng t created_by d b sale db ≡ (ok s, db')
      → (o : Option Ownership) × PreviousOwner t d.property_id (converted_db eng t b db) o
        × (s ≡ sale)
        × (db' ≡ settled sale b o db)
  unfolding settle_sale
  settle_sale-ok b sale db h =
      >>=-ok-elim (convert_sale_booking eng t b) (λ _. replace_owner eng t created_by d sale) db h
        λ _ db1 e1 h1.
          let is_converted = convert_sale_booking-ok eng t b db e1 in
          let (o, found, same, done) = replace_owner-ok sale db1 h1 in
          (
            o,
            subst (λ x. PreviousOwner t d.property_id x o) is_converted found,
            same,
            done
                ∙ ap (λ x. handed_over sale (id_of o) (closed_db eng t sale.sale_date o x))
                    is_converted,
          )

  record_sale-ok :
      (b : Option Booking) (db : Db) {s : Sale} {db' : Db}
      → record_sale eng t created_by d b db ≡ (ok s, db')
      → (o : Option Ownership) × PreviousOwner t d.property_id (converted b db) o
        × (s ≡ sale_row eng t created_by d db)
        × (db' ≡ sold_db b o db)
  unfolding record_sale
  record_sale-ok b db h =
      >>=-ok-elim (insert_sale eng t created_by d) (settle_sale eng t created_by d b) db h
        λ sale db1 e1 h1.
          let (is_row, inserted) = insert_sale-ok eng t created_by d db e1 in
          let db1_lem = inserted ∙ ap (λ (r : Sale). record db { sales = r ∷ db.sales }) is_row in
          let (o, found, same, done) = settle_sale-ok b sale db1 h1 in
          (
            o,
            subst (λ x. PreviousOwner t d.property_id (converted_db eng t b x) o) db1_lem found,
            same ∙ is_row,
            done ∙ ap₂ (λ x y. settled x b o y) is_row db1_lem,
          )

  -- A transaction that returns has met every guard, and has left exactly this database.
  pub sale_transaction-ok :
      (db : Db) {s : Sale} {db' : Db}
      → sale_transaction eng t created_by d db ≡ (ok s, db')
      → Sold db s db'
  unfolding sale_transaction
  sale_transaction-ok db {s} {db'} h =
      >>=-ok-elim (lock_sellable_property t d.property_id)
        (λ _. lock_sale_booking t d >>= record_sale eng t created_by d) db h
        λ p db1 e1 h1.
          let (same1, found_property, sellable) = lock_sellable_property-ok t d.property_id db e1 in
          >>=-ok-elim (lock_sale_booking t d) (record_sale eng t created_by d) db1 h1 λ b db2 e2 h2.
            let (same2, found_booking) = lock_sale_booking-ok t d db1 b e2 in
            let (o, found, is_row, done) = record_sale-ok b db2 h2 in
            subst (λ x. Sold x s db') (same2 ∙ same1)
              record {
                property = p;
                booking = b;
                previous = o;
                found_property =
                    subst (λ x. select (is_live_property t d.property_id) x.properties ≡ p ∷ [])
                      (sym (same2 ∙ same1)) found_property;
                sellable = sellable;
                found_booking = subst (λ x. SaleBooking t d x b) (sym same2) found_booking;
                found_previous = found;
                is_sale_row = is_row;
                result = done;
              }

  -- A `create_sale` that returns has run its whole transaction on the database that it was given.
  pub create_sale-ok :
      (db : Db) {s : Sale} {db' : Db}
      → create_sale eng t created_by d db ≡ (ok s, db')
      → Sold db s db'
  unfolding create_sale
  create_sale-ok db {s} {db'} h =
      >>=-ok-elim (validate_customer t d.customer_id)
        (λ _. except_dbapi (atomic (sale_transaction eng t created_by d)) sale_error) db h
        λ c db1 e1 h1.
          subst (λ x. Sold x s db') (validate_customer-ok t d.customer_id db e1).0
            (sale_transaction-ok db1 (
              atomic-eq-ok _ db1 (
                except_dbapi-eq-ok (atomic (sale_transaction eng t created_by d)) sale_error db1
                  h1)))
