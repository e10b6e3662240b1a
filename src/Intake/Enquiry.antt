-- ===== src/Intake/Enquiry.antt =====
-- What an enquiry leaves behind: backend/app/public_intake/service.py, `submit_enquiry`.
use realesatecrm.Base.{
  ℕ, ◌≡◌, refl, sym, subst, ap, ap₂, ◌∙◌, Text, false, not, ◌||◌, Option, none, some, List, [], ◌∷◌,
  select, arith, String,
}
use realesatecrm.Core.Errors.{Result, ok, raised}
use realesatecrm.Db.Rows.{Db, Customer, Lead, Property}
use realesatecrm.Db.Action.{Action, Stmt, Engine, ◌>>=◌, ◌>>◌, pure}
use realesatecrm.Db.Inversion.{>>=-ok-elim, execute-eq-ok, atomic-eq-ok}
use realesatecrm.Db.Reads.{Reads}
use realesatecrm.Events.{publish_event}
use realesatecrm.Contacts.Phone.{normalize_phone}
use realesatecrm.Contacts.Resolver.{
  has_phone, given, contact_phone, is_given, checked_phone, find, find_phone, find_email,
  find_external_id, create, ContactDefaults,
}
use realesatecrm.Contacts.Unique.{
  Preserves, >>=-Preserves, execute-Preserves, pure-Preserves, Reads-Preserves,
  resolve_contact-Preserves,
}
use realesatecrm.Contacts.Again.{resolved-found}
use realesatecrm.Contacts.Leads.{lead_row}
use realesatecrm.Intake.Repository.{
  resolve_lead_source_id, create_minimal_lead, get_property_for_interest, add_property_interest,
}
use realesatecrm.Intake.Service.{
  PublicLeadIntakeRequest, alone, defaults_of, find_or_create_customer, record_interest_in,
  record_interest_id, maybe_record_property_interest, enquire, submit_enquiry,
}

resolve_lead_source_id-Reads : (t : ℕ) (code : Option Text) → Reads (resolve_lead_source_id t code)
unfolding Reads resolve_lead_source_id
resolve_lead_source_id-Reads t none db = refl
resolve_lead_source_id-Reads t (some []) db = refl
resolve_lead_source_id-Reads t (some (c ∷ code)) db = refl

get_property_for_interest-Reads : (t id : ℕ) → Reads (get_property_for_interest t id)
unfolding Reads get_property_for_interest
get_property_for_interest-Reads t id db = ground arith

-- Contacts leave the leads alone.
create-leads :
    (leads : List Lead) (eng : Engine) (t : ℕ) (phone : Text) (email external_id : Option Text)
    (d : ContactDefaults)
    → Preserves (λ db. db.leads ≡ leads) (create eng t phone email external_id d)
unfolding create
create-leads leads eng t phone email external_id d =
    execute-Preserves (λ db. db.leads ≡ leads) eng Stmt.insert_customer _ λ db same. ground arith

publish_event-leads :
    (leads : List Lead) (eng : Engine) (t : ℕ) (event_type : String) (contact lead : Option ℕ)
    → Preserves (λ db. db.leads ≡ leads) (publish_event eng t event_type contact lead)
unfolding publish_event
publish_event-leads leads eng t event_type contact lead =
    execute-Preserves (λ db. db.leads ≡ leads) eng Stmt.insert_event _ λ db same. same

-- Interests leave the leads and the contacts alone.
abbrev Untouched : Db → Db → Type 0
Untouched before db = (db.leads ≡ before.leads) × (db.customers ≡ before.customers)

module _ (eng : Engine) (t : ℕ) (before : Db) where
  add_property_interest-Untouched :
      (lead_id project_id property_id : ℕ)
      → Preserves (Untouched before) (add_property_interest eng t lead_id project_id property_id)
  unfolding add_property_interest
  add_property_interest-Untouched lead_id project_id property_id =
      execute-Preserves (Untouched before) eng Stmt.insert_interest _ λ db same. ground arith

  in_project :
      (lead_id : ℕ) (prop : Option Property)
      → Preserves (Untouched before) (record_interest_in eng t lead_id prop)
  in_project lead_id none = pure-Preserves (Untouched before) tt
  in_project lead_id (some p) = add_property_interest-Untouched lead_id p.project_id p.id

  parsed :
      (lead_id : ℕ) (id : Option ℕ)
      → Preserves (Untouched before) (record_interest_id eng t lead_id id)
  parsed lead_id none = pure-Preserves (Untouched before) tt
  parsed lead_id (some id) =
      >>=-Preserves (Untouched before) (get_property_for_interest t id) _
        (Reads-Preserves (Untouched before) _ (get_property_for_interest-Reads t id))
        (in_project lead_id)

  record_interest-Untouched :
      (parse_uuid : Text → Option ℕ) (lead_id : ℕ) (raw : Option Text)
      → Preserves (Untouched before) (maybe_record_property_interest eng parse_uuid t lead_id raw)
  unfolding maybe_record_property_interest
  record_interest-Untouched parse_uuid lead_id none = pure-Preserves (Untouched before) tt
  record_interest-Untouched parse_uuid lead_id (some []) = pure-Preserves (Untouched before) tt
  record_interest-Untouched parse_uuid lead_id (some (c ∷ raw)) =
      parsed lead_id (parse_uuid (c ∷ raw))

-- The number of a contact that is found, and the contact.
number_of :
    (phone : Text) (db : Db) {number : Option Text}
    → contact_phone (given (some phone)) db ≡ (ok number, db)
    → not (is_given number || false || false) ≡ false
    → (n : Text) × (normalize_phone phone ≡ ok n) × (number ≡ some n)
unfolding contact_phone
number_of [] db {number} h lacks =
    let nothing : number ≡ none = cc in absurd (ground (arith, nothing))
number_of (c ∷ s) db {number} h lacks = checked (normalize_phone (c ∷ s)) refl h
  where
    checked :
        (r : Result Text)
        → normalize_phone (c ∷ s) ≡ r
        → checked_phone r db ≡ (ok number, db)
        → (n : Text) × (normalize_phone (c ∷ s) ≡ ok n) × (number ≡ some n)
    checked (ok n) e k = (n, e, cc)
    checked (raised x) e k = absurd (cc)

found_by_phone :
    (fold : Text → Text) (t : ℕ) (n : Text) (c : Customer) (db : Db)
    → find fold t (some n) none none db ≡ (ok (some c), db)
    → select (has_phone t n) db.customers ≡ c ∷ []
unfolding find find_phone find_email find_external_id
found_by_phone fold t n c db h = ground arith

-- The contact that an enquiry resolves to is the one with its number, and no lead is touched.
find_or_create-found :
    (fold : Text → Text) (eng : Engine) (t : ℕ) (d : PublicLeadIntakeRequest) (source : Option ℕ)
    (c : Customer) (db db' : Db)
    → find_or_create_customer fold eng t d source db ≡ (ok c, db')
    → (n : Text) × (normalize_phone d.phone ≡ ok n)
      × (select (has_phone t n) db'.customers ≡ c ∷ [])
      × (db'.leads ≡ db.leads)
unfolding find_or_create_customer Preserves
find_or_create-found fold eng t d source c db db' h =
    let (number, e1, enough, e2) =
      resolved-found fold eng alone t (some d.phone) none none (defaults_of d source) c db db' h in
    let (n, normal, is_n) = number_of d.phone db' e1 enough in
    let found : find fold t (some n) none none db' ≡ (ok (some c), db') =
      subst (λ o. find fold t o none none db' ≡ (ok (some c), db')) is_n e2 in
    let kept =
      resolve_contact-Preserves (λ x. x.leads ≡ db.leads) fold eng alone t (λ x q. q) (λ x q. q)
        (create-leads db.leads eng t) (publish_event-leads db.leads eng t) (some d.phone) none none
        (defaults_of d source) db refl in
    (
      n,
      normal,
      found_by_phone fold t n c db' found,
      subst (λ (r : Result Customer × Db). r.1.leads ≡ db.leads) h kept,
    )

create_minimal_lead-ok :
    (eng : Engine) (t customer_id : ℕ) (db : Db) (l : Lead) (db' : Db)
    → create_minimal_lead eng t customer_id db ≡ (ok l, db')
    → (l ≡ lead_row eng t customer_id db) × (db' ≡ record db { leads = l ∷ db.leads })
unfolding create_minimal_lead
create_minimal_lead-ok eng t customer_id db l db' h =
    let done =
      execute-eq-ok eng Stmt.insert_lead
        (λ x. let row = lead_row eng t customer_id x in (row, record x { leads = row ∷ x.leads }))
        db h in
    let its : lead_row eng t customer_id db ≡ l = ap (λ (r : Lead × Db). r.0) done in
    (
      sym its,
      sym (ap (λ (r : Lead × Db). r.1) done)
          ∙ ap (λ (r : Lead). record db { leads = r ∷ db.leads }) its,
    )

-- An accepted enquiry.
pub record Accepted (t : ℕ) (d : PublicLeadIntakeRequest) (l : Lead) (db db' : Db) : Type 0 where
  pub number : Text
  pub contact : Customer
  pub normal : normalize_phone d.phone ≡ ok number
  pub one_contact : select (has_phone t number) db'.customers ≡ contact ∷ []
  pub of_contact : l.customer_id ≡ contact.id
  pub of_tenant : l.tenant_id ≡ t
  pub is_new : l.status ≡ "new"
  pub opened : db'.leads ≡ l ∷ db.leads

module _ (fold : Text → Text) (parse_uuid : Text → Option ℕ) (eng : Engine) (t : ℕ)
    (d : PublicLeadIntakeRequest) where
  abbrev with_interest : Lead → Action Lead
  with_interest lead =
      maybe_record_property_interest eng parse_uuid t lead.id d.property_id >> pure lead

  abbrev for_contact : Customer → Action Lead
  for_contact c = create_minimal_lead eng t c.id >>= with_interest

  abbrev from_source : Option ℕ → Action Lead
  from_source source = find_or_create_customer fold eng t d source >>= for_contact

  -- The interest changes neither the lead nor the contacts.
  with_interest-Untouched :
      (lead l : Lead) (db db' : Db)
      → with_interest lead db ≡ (ok l, db')
      → (l ≡ lead) × Untouched db db'
  unfolding Preserves
  with_interest-Untouched lead l db db' h =
      let m = maybe_record_property_interest eng parse_uuid t lead.id d.property_id in
      >>=-ok-elim m (λ _. pure lead) db h
        λ u mid e rest.
          let kept =
            record_interest-Untouched eng t db parse_uuid lead.id d.property_id db (refl, refl) in
          let same : mid ≡ db' = ap (λ (r : Result Lead × Db). r.1) rest in
          let its : lead ≡ l = ground (arith, rest) in
          (sym its, subst (Untouched db) (ap (λ (r : Result (Unit {0}) × Db). r.1) e ∙ same) kept)

-- An enquiry that is accepted opens exactly one lead, a new one of the tenant; it belongs to the one live
-- contact of the tenant that has the number of the enquiry in its normal form, whether that contact was
-- there before or was created.
pub submit_enquiry-Accepted :
    (fold : Text → Text) (parse_uuid : Text → Option ℕ) (eng : Engine) (t : ℕ)
    (d : PublicLeadIntakeRequest) (l : Lead) (db db' : Db)
    → submit_enquiry fold parse_uuid eng t d db ≡ (ok l, db')
    → Accepted t d l db db'
unfolding submit_enquiry Reads Preserves
submit_enquiry-Accepted fold parse_uuid eng t d l db db' h =
    >>=-ok-elim (resolve_lead_source_id t d.source_code) (from_source fold parse_uuid eng t d) db
      (atomic-eq-ok (enquire fold parse_uuid eng t d) db h)
      λ source db1 e1 h1.
        >>=-ok-elim (find_or_create_customer fold eng t d source)
          (for_contact fold parse_uuid eng t d) db1 h1
          λ c db2 e2 h2.
            >>=-ok-elim (create_minimal_lead eng t c.id) (with_interest fold parse_uuid eng t d) db2
              h2
              λ lead db3 e3 h3.
                let (n, normal, one, leads) =
                  find_or_create-found fold eng t d source c db1 db2 e2 in
                let (its, (leads', contacts')) =
                  with_interest-Untouched fold parse_uuid eng t d lead l db3 db' h3 in
                let before : db1 ≡ db =
                  sym (ap (λ (r : Result (Option ℕ) × Db). r.1) e1)
                  ∙ resolve_lead_source_id-Reads t d.source_code db in
                let (row, inserted) = create_minimal_lead-ok eng t c.id db2 lead db3 e3 in
                record {
                  number = n;
                  contact = c;
                  normal = normal;
                  one_contact =
                      subst (λ cs. select (has_phone t n) cs ≡ c ∷ [])
                        (sym (contacts' ∙ ap (λ (x : Db). x.customers) inserted)) one;
                  of_contact = ap (λ (x : Lead). x.customer_id) (its ∙ row);
                  of_tenant = ap (λ (x : Lead). x.tenant_id) (its ∙ row);
                  is_new = ap (λ (x : Lead). x.status) (its ∙ row);
                  opened =
                      leads'
                      ∙ ap (λ (x : Db). x.leads) inserted
                      ∙ ap₂ (λ (x : Lead) xs. x ∷ xs) (sym its)
                          (leads ∙ ap (λ (x : Db). x.leads) before);
                }
