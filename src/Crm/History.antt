-- ===== src/Crm/History.antt =====
-- Invariants of the property lifecycle over any history of requests.
use realesatecrm.Base.{ℕ, ◌≤◌, ◌≡◌, sym, subst, true, Option, arith, length, select}
use native.Mathlib.Nat.{le_trans}
use realesatecrm.Db.Rows.{Db, Ownership}
use realesatecrm.Db.Action.{Engine}
use realesatecrm.Db.Table.{length-select-update_where}
use realesatecrm.Sales.Repository.{is_current}
use realesatecrm.Sales.Ledger.{OneOwner, current_owners, create_sale-OneOwner}
use realesatecrm.Ownerships.Repository.{OwnershipUpdate, is_visible_ownership, set_ownership}
use realesatecrm.Ownerships.Service.{update_ownership, add_co_owner, remove_co_owner}
use realesatecrm.Bookings.Service.{create_booking, update_booking}
use realesatecrm.Sales.Service.{update_sale}
use realesatecrm.Sales.Payments.{create_payment, update_payment}
use realesatecrm.Ownerships.Listings.{create_listing, update_listing}
use realesatecrm.Crm.{Request, serve}
use realesatecrm.Crm.Frames.{
  Keeps, create_booking-Keeps, update_booking-Keeps, update_sale-Keeps, create_payment-Keeps,
  update_payment-Keeps, add_co_owner-Keeps, remove_co_owner-Keeps, create_listing-Keeps,
  update_listing-Keeps,
}

-- The databases that some history of requests leads to.
pub data Reach (db : Db) : Db → Type 0 where
  start : Reach db db
  request : {db' : Db} → Reach db db' → (eng : Engine) (r : Request) → Reach db (serve eng r db')

-- Verifying or reversing an ownership record makes nobody an owner of record.
update_ownership-owners :
    (eng : Engine) (scope : Option ℕ) (id : ℕ) (d : OwnershipUpdate) (db : Db) (t p : ℕ)
    → length (current_owners t p (update_ownership eng scope id d db).1)
      ≤ length (current_owners t p db)
unfolding update_ownership
update_ownership-owners eng scope id d db t p = ground (
  arith,
  length-select-update_where (is_current t p) (is_visible_ownership scope id)
      (set_ownership eng d.verified_by d.ownership_status) db.ownerships
      (λ (r : Ownership)
          (e : is_current t p (set_ownership eng d.verified_by d.ownership_status r) ≡ true).
        e),
)

Keeps-OneOwner : (db db' : Db) → Keeps db db' → OneOwner db → OneOwner db'
Keeps-OneOwner db db' (same, _) one t p =
    subst (λ rows. length (select (is_current t p) rows) ≤ 1) (sym same) (one t p)

-- No request, served or refused, gives a property a second owner of record.
serve-OneOwner : (eng : Engine) (r : Request) (db : Db) → OneOwner db → OneOwner (serve eng r db)
unfolding serve
serve-OneOwner eng (Request.create_booking t by d) db =
    Keeps-OneOwner db (create_booking eng t by d db).1 (create_booking-Keeps eng t by d db)
serve-OneOwner eng (Request.update_booking scope id d) db =
    Keeps-OneOwner db (update_booking eng scope id d db).1 (update_booking-Keeps eng scope id d db)
serve-OneOwner eng (Request.create_sale t by d) db = create_sale-OneOwner eng t by d db
serve-OneOwner eng (Request.update_sale scope id status) db =
    Keeps-OneOwner db (update_sale eng scope id status db).1
      (update_sale-Keeps eng scope id status db)
serve-OneOwner eng (Request.create_payment t sale by d) db =
    Keeps-OneOwner db (create_payment eng t sale by d db).1
      (create_payment-Keeps eng t sale by d db)
serve-OneOwner eng (Request.update_payment scope id d) db =
    Keeps-OneOwner db (update_payment eng scope id d db).1 (update_payment-Keeps eng scope id d db)
serve-OneOwner eng (Request.update_ownership scope id d) db =
    λ one t p. le_trans (update_ownership-owners eng scope id d db t p) (one t p)
serve-OneOwner eng (Request.add_co_owner t o d) db =
    Keeps-OneOwner db (add_co_owner eng t o d db).1 (add_co_owner-Keeps eng t o d db)
serve-OneOwner eng (Request.remove_co_owner t o id) db =
    Keeps-OneOwner db (remove_co_owner eng t o id db).1 (remove_co_owner-Keeps eng t o id db)
serve-OneOwner eng (Request.create_listing t by d) db =
    Keeps-OneOwner db (create_listing eng t by d db).1 (create_listing-Keeps eng t by d db)
serve-OneOwner eng (Request.update_listing scope id d) db =
    Keeps-OneOwner db (update_listing eng scope id d db).1 (update_listing-Keeps eng scope id d db)

-- Whatever requests have been served, in whatever order and with whatever refusals of the database,
-- no property has two owners of record, if none had at the start.
pub Reach-OneOwner : {db db' : Db} → Reach db db' → OneOwner db → OneOwner db'
Reach-OneOwner start one = one
Reach-OneOwner (request {db' = before} r eng q) one =
    serve-OneOwner eng q before (Reach-OneOwner r one)
