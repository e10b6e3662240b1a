-- ===== src/Crm/Frames.antt =====
-- The tables that a request leaves alone.
use realesatecrm.Base.{ℕ, ◌≡◌, Option, String, arith}
use realesatecrm.Db.Rows.{Db}
use realesatecrm.Db.Action.{Engine}
use realesatecrm.Bookings.Repository.{BookingCreate, BookingUpdate}
use realesatecrm.Bookings.Service.{create_booking, update_booking}
use realesatecrm.Sales.Service.{update_sale}
use realesatecrm.Sales.Payments.{PaymentCreate, PaymentUpdate, create_payment, update_payment}
use realesatecrm.Ownerships.Repository.{CoOwnerCreate}
use realesatecrm.Ownerships.Service.{add_co_owner, remove_co_owner}
use realesatecrm.Ownerships.Listings.{ListingCreate, ListingUpdate, create_listing, update_listing}

-- The tables that only the sale transaction and the ownership service write.
abbrev pub Keeps : Db → Db → Type 0
Keeps db db' = (db'.ownerships ≡ db.ownerships) × (db'.properties ≡ db.properties)

module _ (eng : Engine) where
  pub create_booking-Keeps :
      (t : ℕ) (by : Option ℕ) (d : BookingCreate) (db : Db)
      → Keeps db (create_booking eng t by d db).1
  unfolding create_booking
  create_booking-Keeps t by d db = ground arith

  pub update_booking-Keeps :
      (scope : Option ℕ) (id : ℕ) (d : BookingUpdate) (db : Db)
      → Keeps db (update_booking eng scope id d db).1
  unfolding update_booking
  update_booking-Keeps scope id d db = ground arith

  pub update_sale-Keeps :
      (scope : Option ℕ) (id : ℕ) (status : String) (db : Db)
      → Keeps db (update_sale eng scope id status db).1
  unfolding update_sale
  update_sale-Keeps scope id status db = ground arith

  pub create_payment-Keeps :
      (t sale : ℕ) (by : Option ℕ) (d : PaymentCreate) (db : Db)
      → Keeps db (create_payment eng t sale by d db).1
  unfolding create_payment
  create_payment-Keeps t sale by d db = ground arith

  pub update_payment-Keeps :
      (scope : Option ℕ) (id : ℕ) (d : PaymentUpdate) (db : Db)
      → Keeps db (update_payment eng scope id d db).1
  unfolding update_payment
  update_payment-Keeps scope id d db = ground arith

  pub add_co_owner-Keeps :
      (t o : ℕ) (d : CoOwnerCreate) (db : Db) → Keeps db (add_co_owner eng t o d db).1
  unfolding add_co_owner
  add_co_owner-Keeps t o d db = ground arith

  pub remove_co_owner-Keeps : (t o id : ℕ) (db : Db) → Keeps db (remove_co_owner eng t o id db).1
  unfolding remove_co_owner
  remove_co_owner-Keeps t o id db = ground arith

  pub create_listing-Keeps :
      (t : ℕ) (by : Option ℕ) (d : ListingCreate) (db : Db)
      → Keeps db (create_listing eng t by d db).1
  unfolding create_listing
  create_listing-Keeps t by d db = ground arith

  pub update_listing-Keeps :
      (scope : Option ℕ) (id : ℕ) (d : ListingUpdate) (db : Db)
      → Keeps db (update_listing eng scope id d db).1
  unfolding update_listing
  update_listing-Keeps scope id d db = ground arith
