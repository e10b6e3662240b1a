-- ===== src/Crm/Requests.antt =====
-- The requests that change state, by the service method that serves them.
use realesatecrm.Base.{ℕ, Option, String}
use realesatecrm.Bookings.Repository.{BookingCreate, BookingUpdate}
use realesatecrm.Sales.Repository.{SaleCreate}
use realesatecrm.Sales.Payments.{PaymentCreate, PaymentUpdate}
use realesatecrm.Ownerships.Repository.{OwnershipUpdate, CoOwnerCreate}
use realesatecrm.Ownerships.Listings.{ListingCreate, ListingUpdate}

-- A request that changes state: its tenant or scope, and its payload.
pub data Request : Type 0 where
  create_booking : ℕ → Option ℕ → BookingCreate → Request
  update_booking : Option ℕ → ℕ → BookingUpdate → Request
  create_sale : ℕ → Option ℕ → SaleCreate → Request
  update_sale : Option ℕ → ℕ → String → Request
  create_payment : ℕ → ℕ → Option ℕ → PaymentCreate → Request
  update_payment : Option ℕ → ℕ → PaymentUpdate → Request
  update_ownership : Option ℕ → ℕ → OwnershipUpdate → Request
  add_co_owner : ℕ → ℕ → CoOwnerCreate → Request
  remove_co_owner : ℕ → ℕ → ℕ → Request
  create_listing : ℕ → Option ℕ → ListingCreate → Request
  update_listing : Option ℕ → ℕ → ListingUpdate → Request
