-- ===== src/Scenarios/Town.antt =====
-- A database with one property that is on hold for its second sale, and a database engine that
-- refuses nothing.
use realesatecrm.Base.{ℕ, none, some, [], ◌∷◌, false, codes}
use realesatecrm.Core.Errors.{DbError}
use realesatecrm.Db.Rows.{Db, Customer, Property, Lead, Booking, Ownership, Sale}
use realesatecrm.Db.Action.{Engine}
use realesatecrm.Sales.Repository.{SaleCreate}

abbrev pub some_error : DbError
some_error = record { orig = codes "could not serialize access"; sqlstate = none }

abbrev pub calm : Engine
calm = record {
  fault = λ s db. none;
  null_refusal = λ s. some_error;
  new_id = λ s db. 900;
  locked = λ id db. false;
  today = 20;
  now = 2000;
}

abbrev customer : ℕ → Customer
customer id = record {
  id = id;
  tenant_id = 1;
  full_name = codes "Asha";
  phone = codes "+919876543210";
  email = none;
  external_id = none;
  lead_source_id = none;
  preferred_language = codes "hi";
  whatsapp_opted_in = false;
  do_not_call = false;
  created_at = 5;
  deleted_at = none;
}

abbrev pub flat : Property
flat = record {
  id = 10;
  tenant_id = 1;
  project_id = 4;
  status = "reserved";
  updated_at = 3;
  deleted_at = none;
}

abbrev pub token : Booking
token = record {
  id = 30;
  tenant_id = 1;
  property_id = 10;
  customer_id = 3;
  lead_id = some 40;
  booking_date = 12;
  booking_amount = 5000;
  booking_status = "active";
  notes = none;
  created_by = none;
  updated_at = 12;
}

abbrev pub first_owner : Ownership
first_owner = record {
  id = 50;
  tenant_id = 1;
  property_id = 10;
  customer_id = 2;
  sale_id = none;
  purchase_purpose = none;
  previous_ownership_id = none;
  ownership_start_date = 1;
  ownership_end_date = none;
  ownership_status = "active";
  created_by = none;
  verified_by = none;
  updated_at = 1;
}

abbrev enquiry : Lead
enquiry = record {
  id = 40;
  tenant_id = 1;
  customer_id = 3;
  status = "active";
  lead_score = 0;
  converted_at = none;
  created_at = 6;
  updated_at = 6;
  deleted_at = none;
}

abbrev pub town : Db
town = record {
  customers = customer 2 ∷ customer 3 ∷ [];
  properties = flat ∷ [];
  leads = enquiry ∷ [];
  bookings = token ∷ [];
  sales = [];
  payments = [];
  ownerships = first_owner ∷ [];
  co_owners = [];
  listings = [];
  preferences = [];
  call_jobs = [];
  call_attempts = [];
  calls = [];
  call_contexts = [];
  follow_ups = [];
  events = [];
  roles = [];
  permissions = [];
  role_permissions = [];
  user_roles = [];
  tenants = [];
  lead_sources = [];
  interests = [];
  webhook_events = [];
}

abbrev pub deal : SaleCreate
deal = record {
  property_id = 10;
  customer_id = 3;
  booking_id = some 30;
  sale_date = none;
  sale_amount = 700000;
  discount_amount = 0;
  tax_amount = 0;
  purchase_purpose = none;
}

abbrev pub deal_sale : Sale
deal_sale = record {
  id = 900;
  tenant_id = 1;
  booking_id = some 30;
  property_id = 10;
  customer_id = 3;
  sale_date = 20;
  sale_amount = 700000;
  discount_amount = 0;
  tax_amount = 0;
  sale_status = "active";
  created_by = none;
  updated_at = 2000;
}
