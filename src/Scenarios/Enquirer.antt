-- ===== src/Scenarios/Enquirer.antt =====
-- A stranger writes to a tenant that has no contacts yet.
use realesatecrm.Base.{◌≡◌, refl, none, some, [], arith, codes, lower, false}
use realesatecrm.Core.Errors.{ok}
use realesatecrm.Db.Rows.{Db, Customer, Lead}
use realesatecrm.Contacts.Phone.{normalize_phone, is_digits}
use realesatecrm.Events.{publish_event}
use realesatecrm.Contacts.Resolver.{
  ContactDefaults, Others, contact_phone, find, create_contact, found_or_created, resolve_contact,
}
use realesatecrm.Contacts.Unique.{OneContact, resolve_contact-OneContact}
use realesatecrm.Contacts.Again.{resolve_contact-again}
use realesatecrm.Contacts.Leads.{
  lead_row, find_open_lead, create_lead, open_lead, found_or_opened, resolve_lead,
  resolve_lead-again,
}
use realesatecrm.Scenarios.Town.{calm, town}

abbrev empty_tenant : Db
empty_tenant = record town { customers = [] }

abbrev nobody : Others
nobody = record { before_insert = λ db. db; before_refetch = λ db. db }

abbrev plain : ContactDefaults
plain = record {
  full_name = some (codes "Ravi");
  email = none;
  lead_source_id = none;
  preferred_language = none;
  whatsapp_opted_in = none;
}

abbrev stranger : Customer
stranger = record {
  id = 900;
  tenant_id = 1;
  full_name = codes "Ravi";
  phone = codes "+919811122233";
  email = some (codes "r@x.in");
  external_id = none;
  lead_source_id = none;
  preferred_language = codes "hi";
  whatsapp_opted_in = false;
  do_not_call = false;
  created_at = 2000;
  deleted_at = none;
}

abbrev after : Db
after =
    (resolve_contact lower calm nobody 1 (some (codes "98111 22233")) (some (codes "r@x.in")) none
      plain empty_tenant).1

stranger_created :
    resolve_contact lower calm nobody 1
      (some (codes "98111 22233"))
      (some (codes "r@x.in"))
      none
      plain
      empty_tenant
    ≡ (ok stranger, after)
unfolding resolve_contact contact_phone normalize_phone find create_contact found_or_created
    publish_event is_digits
stranger_created = refl

resolve_contact-again_example :
    resolve_contact lower calm nobody 1
      (some (codes "98111 22233"))
      (some (codes "r@x.in"))
      none
      plain
      after
    ≡ (ok stranger, after)
resolve_contact-again_example =
    resolve_contact-again lower calm calm nobody nobody 1 (some (codes "98111 22233"))
      (some (codes "r@x.in")) none plain plain stranger empty_tenant after stranger_created

empty-OneContact : OneContact empty_tenant
unfolding OneContact
empty-OneContact t phone = omega arith

resolve_contact-OneContact_example : OneContact after
resolve_contact-OneContact_example =
    resolve_contact-OneContact lower calm nobody 1 (λ db h. h) (λ db h. h)
      (some (codes "98111 22233")) (some (codes "r@x.in")) none plain empty_tenant empty-OneContact

abbrev with_lead : Db
with_lead = (resolve_lead calm 1 2 town).1

abbrev new_lead : Lead
new_lead = lead_row calm 1 2 town

lead_opened : resolve_lead calm 1 2 town ≡ (ok new_lead, with_lead)
unfolding resolve_lead find_open_lead found_or_opened open_lead create_lead publish_event
lead_opened = refl

resolve_lead-again_example : resolve_lead calm 1 2 with_lead ≡ (ok new_lead, with_lead)
resolve_lead-again_example = resolve_lead-again calm 1 2 calm new_lead town with_lead lead_opened
