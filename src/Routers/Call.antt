-- ===== src/Routers/Call.antt =====
-- The calls of the endpoints that change state, and the permission of each endpoint.
use realesatecrm.Base.{ℕ, String}
use realesatecrm.Bookings.Repository.{BookingCreate, BookingUpdate}
use realesatecrm.Sales.Repository.{SaleCreate}
use realesatecrm.Sales.Payments.{PaymentCreate, PaymentUpdate}
use realesatecrm.Ownerships.Repository.{OwnershipUpdate, CoOwnerCreate}
use realesatecrm.Ownerships.Listings.{ListingCreate, ListingUpdate}

-- A call of an endpoint that changes state, with its path parameters and payload.
pub data Call : Type 0 where
  create_booking : BookingCreate → Call
  update_booking : ℕ → BookingUpdate → Call
  create_sale : SaleCreate → Call
  update_sale : ℕ → String → Call
  create_payment : ℕ → PaymentCreate → Call
  update_payment : ℕ → ℕ → PaymentUpdate → Call
  update_ownership : ℕ → OwnershipUpdate → Call
  add_co_owner : ℕ → CoOwnerCreate → Call
  remove_co_owner : ℕ → ℕ → Call
  create_listing : ListingCreate → Call
  update_listing : ℕ → ListingUpdate → Call

-- The permission that stands for a call.
abbrev pub permission_of : Call → String
permission_of (Call.create_booking d) = "property_booking.create"
permission_of (Call.update_booking id d) = "property_booking.update"
permission_of (Call.create_sale d) = "property_sale.create"
permission_of (Call.update_sale id status) = "property_sale.update"
permission_of (Call.create_payment sale d) = "property_sale_payment.create"
permission_of (Call.update_payment sale id d) = "property_sale_payment.update"
permission_of (Call.update_ownership id d) = "property_ownership.update"
permission_of (Call.add_co_owner o d) = "property_ownership.update"
permission_of (Call.remove_co_owner o id) = "property_ownership.update"
permission_of (Call.create_listing d) = "resale_listing.create"
permission_of (Call.update_listing id d) = "resale_listing.update"
