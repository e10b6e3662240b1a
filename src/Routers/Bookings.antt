-- ===== src/Routers/Bookings.antt =====
-- backend/app/bookings/router.py: the endpoints of one booking.
use realesatecrm.Base.{ℕ, some}
use realesatecrm.Db.Rows.{Booking}
use realesatecrm.Db.Action.{Action, Engine, ◌>>=◌, ◌>>◌, pure}
use realesatecrm.Security.Context.{RequestContext}
use realesatecrm.Bookings.Repository.{BookingCreate, BookingUpdate}
use realesatecrm.Bookings.Service as Bookings
use realesatecrm.Routers.Guards.{require_permission, tenant_scope, some_tenant, ensure_access}

unfoldable pub get_booking : ℕ → RequestContext → Action Booking
unfolding require_permission tenant_scope ensure_access Bookings.get_booking
get_booking id context = do
  require_permission "property_booking.read" context
  scope ← tenant_scope context
  booking ← Bookings.get_booking scope id
  ensure_access context booking.tenant_id
  pure booking

module _ (eng : Engine) where
  unfoldable pub create_booking : BookingCreate → RequestContext → Action Booking
  unfolding require_permission tenant_scope some_tenant
  create_booking d context = do
    require_permission "property_booking.create" context
    scope ← tenant_scope context
    t ← some_tenant scope
    Bookings.create_booking eng t (some context.user_id) d

  unfoldable pub update_booking : ℕ → BookingUpdate → RequestContext → Action Booking
  unfolding require_permission tenant_scope ensure_access Bookings.get_booking
  update_booking id d context = do
    require_permission "property_booking.update" context
    scope ← tenant_scope context
    booking ← Bookings.get_booking scope id
    ensure_access context booking.tenant_id
    Bookings.update_booking eng scope id d
