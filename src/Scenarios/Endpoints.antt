-- ===== src/Scenarios/Endpoints.antt =====
-- The guards of the endpoints, for the sales agent in the town.
use realesatecrm.Base.{◌≡◌, ◌≢◌, refl, ap, none, some, ◌∷◌, Any, length, arith}
use realesatecrm.Db.Rows.{Db}
use realesatecrm.Bookings.Repository.{BookingCreate, booking_row}
use realesatecrm.Bookings.Service as Service
use realesatecrm.Crm.Tenancy.{SameFor}
use realesatecrm.Routers.Call.{Call}
use realesatecrm.Routers.Calls.{answer}
use realesatecrm.Routers.Bookings.{create_booking}
use realesatecrm.Routers.Isolation.{answer_isolated, answer_permitted}
use realesatecrm.Security.Access.{Gives}
use realesatecrm.Security.Context.{contains}
use realesatecrm.Security.Permissions.{check_permission, resolve_tenant_scope}
use realesatecrm.Scenarios.Town.{calm, town}
use realesatecrm.Scenarios.Access.{agent, agent_identity, agent_context, agent_loaded, agent_valid}

abbrev request_by_agent : BookingCreate
request_by_agent = record {
  property_id = 10;
  customer_id = 3;
  lead_id = none;
  booking_date = none;
  booking_amount = 4000;
  notes = none;
}

abbrev call_by_agent : Call
call_by_agent = Call.create_booking request_by_agent

booked :
    (answer calm agent_context call_by_agent town).bookings
    ≡ booking_row calm 1 (some 7) request_by_agent town ∷ town.bookings
unfolding answer create_booking check_permission contains resolve_tenant_scope
    Service.create_booking
booked = refl

books : answer calm agent_context call_by_agent town ≢ town
books e = ground (arith, ap (λ (db : Db). length db.bookings) e, ap length booked)

answer_isolated_example : SameFor 2 town (answer calm agent_context call_by_agent town)
answer_isolated_example =
    answer_isolated calm agent_identity call_by_agent town {c = agent_context} 2 agent_valid refl
      (λ e. cc) ((λ e. refl, tt), tt)

answer_permitted_example : Any (Gives 2000 "property_booking.create") agent.user_roles
answer_permitted_example =
    answer_permitted calm 2000 agent agent_identity call_by_agent town agent_loaded agent_valid
      books
