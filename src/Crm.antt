-- ===== src/Crm.antt =====
-- The requests of the property lifecycle as steps on one database, in any order, each under
-- whatever the database decides.
mod Requests
pub mod Frames
pub mod History
pub mod Bookings
pub mod Tenancy
pub mod Isolation
pub use Requests.{Request}
use realesatecrm.Db.Rows.{Db}
use realesatecrm.Db.Action.{Engine}
use realesatecrm.Bookings.Service.{create_booking, update_booking}
use realesatecrm.Sales.Service.{create_sale, update_sale}
use realesatecrm.Sales.Payments.{create_payment, update_payment}
use realesatecrm.Ownerships.Service.{update_ownership, add_co_owner, remove_co_owner}
use realesatecrm.Ownerships.Listings.{create_listing, update_listing}

-- What a request leaves behind, whether it returns or raises.
unfoldable pub serve : Engine → Request → Db → Db
serve eng (Request.create_booking t by d) db = (create_booking eng t by d db).1
serve eng (Request.update_booking scope id d) db = (update_booking eng scope id d db).1
serve eng (Request.create_sale t by d) db = (create_sale eng t by d db).1
serve eng (Request.update_sale scope id status) db = (update_sale eng scope id status db).1
serve eng (Request.create_payment t sale by d) db = (create_payment eng t sale by d db).1
serve eng (Request.update_payment scope id d) db = (update_payment eng scope id d db).1
serve eng (Request.update_ownership scope id d) db = (update_ownership eng scope id d db).1
serve eng (Request.add_co_owner t o d) db = (add_co_owner eng t o d db).1
serve eng (Request.remove_co_owner t o id) db = (remove_co_owner eng t o id db).1
serve eng (Request.create_listing t by d) db = (create_listing eng t by d db).1
serve eng (Request.update_listing scope id d) db = (update_listing eng scope id d db).1
