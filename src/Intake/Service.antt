-- ===== src/Intake/Service.antt =====
-- backend/app/public_intake/service.py.
use realesatecrm.Base.{ℕ, Text, Option, none, some, [], ◌∷◌}
use realesatecrm.Core.Errors.{AppError}
use realesatecrm.Db.Rows.{Customer, Lead, Property}
use realesatecrm.Db.Action.{Action, Engine, ◌>>=◌, ◌>>◌, pure, or_raise, atomic}
use realesatecrm.Contacts.Resolver.{ContactDefaults, Others, resolve_contact}
use realesatecrm.Intake.Repository.{
  resolve_tenant_by_slug, resolve_lead_source_id, create_minimal_lead, get_property_for_interest,
  add_property_interest,
}

-- PublicLeadIntakeRequest; the message becomes the notes of the lead, which are left out.
pub record PublicLeadIntakeRequest : Type 0 where
  pub name : Text
  pub phone : Text
  pub email : Option Text
  pub source_code : Option Text
  pub property_id : Option Text

unfoldable pub resolve_tenant_id : Text → Action ℕ
unfolding resolve_tenant_by_slug
resolve_tenant_id slug = do
  row ← resolve_tenant_by_slug slug
  tenant ← or_raise row (AppError.not_found "INTAKE_LINK_NOT_FOUND")
  pure tenant.id

-- No other request commits while the transaction runs.
abbrev pub alone : Others
alone = record { before_insert = λ db. db; before_refetch = λ db. db }

abbrev pub defaults_of : PublicLeadIntakeRequest → Option ℕ → ContactDefaults
defaults_of d source = record {
  full_name = some d.name;
  email = d.email;
  lead_source_id = source;
  preferred_language = none;
  whatsapp_opted_in = none;
}

-- `fold` is PostgreSQL's `lower`.
unfoldable pub find_or_create_customer :
    (Text → Text) → Engine → ℕ → PublicLeadIntakeRequest → Option ℕ → Action Customer
find_or_create_customer fold eng t d source =
    resolve_contact fold eng alone t (some d.phone) none none (defaults_of d source)

module _ (eng : Engine) where
  abbrev pub record_interest_in : ℕ → ℕ → Option Property → Action (Unit {0})
  record_interest_in t lead_id none = pure tt
  record_interest_in t lead_id (some p) = add_property_interest eng t lead_id p.project_id p.id

  abbrev pub record_interest_id : ℕ → ℕ → Option ℕ → Action (Unit {0})
  record_interest_id t lead_id none = pure tt
  record_interest_id t lead_id (some id) = do
    prop ← get_property_for_interest t id
    record_interest_in t lead_id prop

  -- `parse_uuid` is Python's `UUID`. An enquiry that names no property, or none that there is, is
  -- accepted all the same.
  unfoldable pub maybe_record_property_interest :
      (Text → Option ℕ) → ℕ → ℕ → Option Text → Action (Unit {0})
  maybe_record_property_interest parse_uuid t lead_id none = pure tt
  maybe_record_property_interest parse_uuid t lead_id (some []) = pure tt
  maybe_record_property_interest parse_uuid t lead_id (some (c ∷ raw)) =
      record_interest_id t lead_id (parse_uuid (c ∷ raw))

module _ (fold : Text → Text) (parse_uuid : Text → Option ℕ) (eng : Engine) where
  unfoldable pub enquire : ℕ → PublicLeadIntakeRequest → Action Lead
  unfolding find_or_create_customer
  enquire t d = do
    source ← resolve_lead_source_id t d.source_code
    customer ← find_or_create_customer fold eng t d source
    lead ← create_minimal_lead eng t customer.id
    maybe_record_property_interest eng parse_uuid t lead.id d.property_id
    pure lead

  unfoldable pub submit_enquiry : ℕ → PublicLeadIntakeRequest → Action Lead
  unfolding enquire
  submit_enquiry t d = atomic (enquire t d)
