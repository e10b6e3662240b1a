-- ===== src/Intake/Repository.antt =====
-- backend/app/public_intake/repository.py.
use realesatecrm.Base.{
  ℕ, Text, Bool, ◌&&◌, ◌||◌, Option, none, some, List, [], ◌∷◌, ◌==◌, same_text, opt_eq, find,
  select,
}
use realesatecrm.Db.Rows.{Db, Tenant, LeadSource, Property, Lead, PropertyInterest}
use realesatecrm.Db.Action.{Action, Stmt, Engine, ◌>>=◌, pure, gets, one_or_none, execute}
use realesatecrm.Db.Table.{is_null}
use realesatecrm.Db.Checks.{is_live_property}
use realesatecrm.Contacts.Leads.{lead_row}

abbrev pub is_open_tenant : Text → Tenant → Bool
is_open_tenant slug r = same_text r.slug slug && r.is_active && is_null r.deleted_at

unfoldable pub resolve_tenant_by_slug : Text → Action (Option Tenant)
resolve_tenant_by_slug slug = do
  rows ← gets (λ db. select (is_open_tenant slug) db.tenants)
  one_or_none rows

abbrev pub is_source : ℕ → Text → LeadSource → Bool
is_source t code r =
    same_text r.code code && r.is_active && (opt_eq r.tenant_id (some t) || is_null r.tenant_id)

-- `ORDER BY tenant_id NULLS LAST LIMIT 1`
abbrev pub own_first : ℕ → List LeadSource → Option LeadSource
own_first t rows = elim (find (λ (r : LeadSource). opt_eq r.tenant_id (some t)) rows) [
  | some r ↦ some r
  | none ↦ find (λ (r : LeadSource). is_null r.tenant_id) rows
]

abbrev id_of : Option LeadSource → Option ℕ
id_of none = none
id_of (some r) = some r.id

unfoldable pub resolve_lead_source_id : ℕ → Option Text → Action (Option ℕ)
resolve_lead_source_id t none = pure none
resolve_lead_source_id t (some []) = pure none
resolve_lead_source_id t (some (c ∷ code)) =
    gets (λ db. id_of (own_first t (select (is_source t (c ∷ code)) db.lead_sources)))

unfoldable pub get_property_for_interest : ℕ → ℕ → Action (Option Property)
get_property_for_interest t id = do
  rows ← gets (λ db. select (is_live_property t id) db.properties)
  one_or_none rows

abbrev pub same_interest : PropertyInterest → PropertyInterest → Bool
same_interest a b =
    a.lead_id == b.lead_id && a.project_id == b.project_id && a.property_id == b.property_id

-- `ON CONFLICT (lead_id, project_id, property_id) DO NOTHING`
abbrev pub insert_new : List PropertyInterest → PropertyInterest → Db → Unit {0} × Db
insert_new [] row db = (tt, record db { interests = row ∷ db.interests })
insert_new (r ∷ rs) row db = (tt, db)

module _ (eng : Engine) where
  -- The number of the lead, its source and the notes are left out.
  unfoldable pub create_minimal_lead : ℕ → ℕ → Action Lead
  create_minimal_lead t customer_id =
      execute eng Stmt.insert_lead (λ db.
        let row = lead_row eng t customer_id db in (row, record db { leads = row ∷ db.leads }))

  unfoldable pub add_property_interest : ℕ → ℕ → ℕ → ℕ → Action (Unit {0})
  add_property_interest t lead_id project_id property_id =
      let row : PropertyInterest = record {
        tenant_id = t;
        lead_id = lead_id;
        project_id = project_id;
        property_id = property_id;
      } in
      execute eng Stmt.insert_interest
        (λ db. insert_new (select (λ r. same_interest r row) db.interests) row db)
