-- ===== src/Crm/Bookings.antt =====
-- What becomes of bookings over any history of requests.
use realesatecrm.Base.{
  ℕ, ◌≡◌, refl, ap, sym, ◌∙◌, subst, ◌⊎◌, inl, inr, String, str_eq_iff, Option, none, some, List,
  [], ◌∷◌, arith, select,
}
use realesatecrm.Core.Errors.{Result, ok, raised}
use realesatecrm.Db.Rows.{Db, Booking, Sale}
use realesatecrm.Db.Action.{Engine}
use realesatecrm.Db.Table.{select_head}
use realesatecrm.Db.Growth.{Grows, Grows-same, Grows-trans, Grows-update_one, added}
use realesatecrm.Bookings.Repository.{
  BookingCreate, BookingUpdate, is_visible_booking, set_notes_and_status, booking_row,
}
use realesatecrm.Bookings.Service.{create_booking, update_booking}
use realesatecrm.Bookings.Lifecycle.{MayBecome, update_booking-cases}
use realesatecrm.Sales.Repository.{SaleCreate, is_booking, convert_booking, sale_row}
use realesatecrm.Sales.Service.{create_sale, update_sale}
use realesatecrm.Sales.Steps.{SaleBooking, bookings_after}
use realesatecrm.Sales.Transaction.{create_sale-ok, converted}
use realesatecrm.Sales.Atomic.{create_sale_atomic}
use realesatecrm.Sales.Once.{closed_db-bookings}
use realesatecrm.Sales.Payments.{create_payment, update_payment}
use realesatecrm.Ownerships.Service.{update_ownership, add_co_owner, remove_co_owner}
use realesatecrm.Ownerships.Listings.{create_listing, update_listing}
use realesatecrm.Crm.{Request, serve}
use realesatecrm.Crm.History.{Reach, start, request}

-- A booking stays what it is about; its status stays, or an active one is cancelled or converted.
pub record Follows (b b' : Booking) : Type 0 where
  pub same_id : b'.id ≡ b.id
  pub same_tenant : b'.tenant_id ≡ b.tenant_id
  pub same_property : b'.property_id ≡ b.property_id
  pub same_customer : b'.customer_id ≡ b.customer_id
  pub same_amount : b'.booking_amount ≡ b.booking_amount
  pub status :
      (b'.booking_status ≡ b.booking_status)
      ⊎ ((b.booking_status ≡ "active")
          × ((b'.booking_status ≡ "cancelled") ⊎ (b'.booking_status ≡ "converted")))

Follows-refl : (b : Booking) → Follows b b
Follows-refl b = ground arith

Follows-trans : (a b c : Booking) → Follows a b → Follows b c → Follows a c
Follows-trans a b c p q =
    ground (arith, str_eq_iff "cancelled" "active", str_eq_iff "converted" "active")

-- What a new booking may be by the end of a history.
abbrev pub HasStatus : Booking → Type 0
HasStatus b =
    (b.booking_status ≡ "active")
    ⊎ (b.booking_status ≡ "cancelled")
    ⊎ (b.booking_status ≡ "converted")

HasStatus-Follows : (a b : Booking) → HasStatus a → Follows a b → HasStatus b
HasStatus-Follows a b h p = ground arith

unchanged : {rows rows' : List Booking} → rows' ≡ rows → Grows HasStatus Follows rows rows'
unchanged {rows} e =
    subst (Grows HasStatus Follows rows) (sym e) (Grows-same HasStatus Follows Follows-refl rows)

abbrev Grew : Db → Db → Type 0
Grew db db' = Grows HasStatus Follows db.bookings db'.bookings

module _ (eng : Engine) where
  create_booking-cases :
      (t : ℕ) (by : Option ℕ) (d : BookingCreate) (db : Db)
      → ((create_booking eng t by d db).1.bookings ≡ db.bookings)
        ⊎ ((create_booking eng t by d db).1.bookings ≡ booking_row eng t by d db ∷ db.bookings)
  unfolding create_booking
  create_booking-cases t by d db = ground arith

  create_booking-Grew :
      (t : ℕ) (by : Option ℕ) (d : BookingCreate) (db : Db)
      → Grew db (create_booking eng t by d db).1
  create_booking-Grew t by d db = elim (create_booking-cases t by d db) [
    | inl same ↦ unchanged same
    | inr new ↦
        subst (Grows HasStatus Follows db.bookings) (sym new)
          (added (inl refl) (Grows-same HasStatus Follows Follows-refl db.bookings))
  ]

  update_booking-Grew :
      (scope : Option ℕ) (id : ℕ) (d : BookingUpdate) (db : Db)
      → Grew db (update_booking eng scope id d db).1
  update_booking-Grew scope id d db = elim (update_booking-cases eng scope id d db) [
    | inl same ↦ unchanged (ap (λ (x : Db). x.bookings) same)
    | inr (b, found, may, done) ↦
        subst (λ (x : Db). Grows HasStatus Follows db.bookings x.bookings) (sym done)
          (Grows-update_one HasStatus Follows Follows-refl (is_visible_booking scope id)
            (set_notes_and_status eng d.booking_status d.notes) b db.bookings found
            (update_Follows d.booking_status b may))
  ]
    where
      update_Follows :
          (status : Option String) (b : Booking)
          → MayBecome status b
          → Follows b (set_notes_and_status eng status d.notes b)
      update_Follows none b may = ground arith
      update_Follows (some s) b may = ground arith

  settled_bookings :
      (t : ℕ) (d : SaleCreate) (b : Option Booking) (db : Db)
      → SaleBooking t d db b
      → Grows HasStatus Follows db.bookings (bookings_after eng t b db.bookings)
  settled_bookings t d none db h = unchanged refl
  settled_bookings t d (some b) db (id, named, found, _, active) =
      Grows-update_one HasStatus Follows Follows-refl (is_booking t b.id) (convert_booking eng) b
        db.bookings
        (subst (λ (x : ℕ). select (is_booking t x) db.bookings ≡ b ∷ [])
          (ground (arith, select_head (is_booking t id) db.bookings b [] found)) found)
        (ground arith)

  create_sale-Grew :
      (t : ℕ) (by : Option ℕ) (d : SaleCreate) (db : Db) → Grew db (create_sale eng t by d db).1
  create_sale-Grew t by d db = go (create_sale eng t by d db) refl
    where
      go : (r : Result Sale × Db) → create_sale eng t by d db ≡ r → Grew db r.1
      go (ok s, db') e =
          let sold = create_sale-ok eng t by d db e in
          subst (Grows HasStatus Follows db.bookings)
            (sym (
                closed_db-bookings eng t (sale_row eng t by d db).sale_date sold.previous
                  (converted eng t by d sold.booking db))
              ∙ ap (λ (x : Db). x.bookings) (sym sold.result))
            (settled_bookings t d sold.booking db sold.found_booking)
      go (raised x, db') e = unchanged (
          ap (λ (r : Result Sale × Db). r.1.bookings) (sym e)
          ∙ ap (λ (x : Db). x.bookings)
              (create_sale_atomic eng t by d db (ap (λ (r : Result Sale × Db). r.0) e)))

  serve-Grew : (r : Request) (db : Db) → Grew db (serve eng r db)
  unfolding serve update_sale create_payment update_payment update_ownership add_co_owner
      remove_co_owner create_listing update_listing
  serve-Grew (Request.create_booking t by d) db = create_booking-Grew t by d db
  serve-Grew (Request.update_booking scope id d) db = update_booking-Grew scope id d db
  serve-Grew (Request.create_sale t by d) db = create_sale-Grew t by d db
  serve-Grew (Request.update_sale scope id status) db = unchanged (ground arith)
  serve-Grew (Request.create_payment t sale by d) db = unchanged (ground arith)
  serve-Grew (Request.update_payment scope id d) db = unchanged (ground arith)
  serve-Grew (Request.update_ownership scope id d) db = unchanged (ground arith)
  serve-Grew (Request.add_co_owner t o d) db = unchanged (ground arith)
  serve-Grew (Request.remove_co_owner t o id) db = unchanged (ground arith)
  serve-Grew (Request.create_listing t by d) db = unchanged (ground arith)
  serve-Grew (Request.update_listing scope id d) db = unchanged (ground arith)

-- Over any history no booking is lost or moved to another property, customer or amount, and its
-- status is what it was, or 'cancelled' or 'converted' where it was 'active'; new bookings only come
-- on top, and have one of these three statuses.
pub Reach-bookings : {db db' : Db} → Reach db db' → Grows HasStatus Follows db.bookings db'.bookings
Reach-bookings {db} start = unchanged refl
Reach-bookings {db} (request {db' = before} r eng q) =
    Grows-trans HasStatus Follows Follows-trans HasStatus-Follows before.bookings
      (serve eng q before).bookings db.bookings (serve-Grew eng q before) (Reach-bookings r)
