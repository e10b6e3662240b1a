-- ===== src/Scenarios/Enquiry.antt =====
-- A stranger enquires through the website of a tenant, about a flat that is for sale.
use realesatecrm.Base.{ℕ, Text, ◌≡◌, refl, Option, none, some, [], codes, lower}
use realesatecrm.Core.Errors.{ok}
use realesatecrm.Db.Rows.{Db, Lead}
use realesatecrm.Db.Action.{atomic}
use realesatecrm.Events.{publish_event}
use realesatecrm.Contacts.Phone.{normalize_phone, is_digits}
use realesatecrm.Contacts.Resolver.{find, resolve_contact}
use realesatecrm.Intake.Repository.{
  resolve_lead_source_id, create_minimal_lead, get_property_for_interest, add_property_interest,
}
use realesatecrm.Intake.Service.{
  PublicLeadIntakeRequest, maybe_record_property_interest, submit_enquiry,
}
use realesatecrm.Intake.Enquiry.{Accepted, submit_enquiry-Accepted}
use realesatecrm.Scenarios.Town.{calm, town}

abbrev website : Db
website = record town { customers = [] }

abbrev flat_enquiry : PublicLeadIntakeRequest
flat_enquiry = record {
  name = codes "Ravi";
  phone = codes "98111 22233";
  email = none;
  source_code = some (codes "website");
  property_id = some (codes "10");
}

-- It reads one identifier.
abbrev parse : Text → Option ℕ
parse raw = some 10

abbrev answered : Db
answered = (submit_enquiry lower parse calm 1 flat_enquiry website).1

abbrev opened_lead : Lead
opened_lead = record {
  id = 900;
  tenant_id = 1;
  customer_id = 900;
  status = "new";
  lead_score = 0;
  converted_at = none;
  created_at = 2000;
  updated_at = 2000;
  deleted_at = none;
}

enquiry_accepted :
    submit_enquiry lower parse calm 1 flat_enquiry website ≡ (ok opened_lead, answered)
unfolding submit_enquiry resolve_contact atomic normalize_phone is_digits publish_event find
    resolve_lead_source_id create_minimal_lead maybe_record_property_interest
    get_property_for_interest add_property_interest
enquiry_accepted = refl

submit_enquiry-Accepted_example : Accepted 1 flat_enquiry opened_lead website answered
submit_enquiry-Accepted_example =
    submit_enquiry-Accepted lower parse calm 1 flat_enquiry opened_lead website answered
      enquiry_accepted
