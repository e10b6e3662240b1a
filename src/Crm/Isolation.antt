-- ===== src/Crm/Isolation.antt =====
-- No request of one tenant changes a row of another: the sale transaction, and then every request.
use realesatecrm.Base.{
  ℕ, ◌≡◌, ◌≢◌, refl, ap, sym, ◌∙◌, subst, Bool, Option, none, some, List, [], ◌∷◌, arith, ◌==◌,
  ==_iff, ◌&&◌, select, All, Bool-cases, inl, inr,
}
use realesatecrm.Core.Errors.{Result, ok, raised}
use realesatecrm.Db.Rows.{Db, Property, Lead, Booking, Sale, Ownership, Listing}
use realesatecrm.Db.Action.{Engine}
use realesatecrm.Db.Table.{update_where, select_head}
use realesatecrm.Sales.Repository.{
  SaleCreate, is_booking, is_current, is_open_listing_of, is_convertible_lead, sale_row,
  convert_booking, convert_lead, end_ownership, convert_listing, set_property_status, is_property,
}
use realesatecrm.Sales.Service.{create_sale}
use realesatecrm.Sales.Steps.{converted_db, closed_db, id_of, PreviousOwner, leads_after}
use realesatecrm.Sales.Transaction.{converted, before_transfer, handed_over, create_sale-ok}
use realesatecrm.Sales.Atomic.{create_sale_atomic}
use realesatecrm.Crm.{Request, serve}
use realesatecrm.Crm.Tenancy.{
  SameFor, others_updated, create_booking-SameFor, update_booking-SameFor, update_sale-SameFor,
  create_payment-SameFor, update_payment-SameFor, update_ownership-SameFor, add_co_owner-SameFor,
  remove_co_owner-SameFor, create_listing-SameFor, update_listing-SameFor,
}

SameFor-trans : (u : ℕ) (a b c : Db) → SameFor u a b → SameFor u b c → SameFor u a c
SameFor-trans u a b c p q = record {
  customers = q.customers ∙ p.customers;
  properties = q.properties ∙ p.properties;
  leads = q.leads ∙ p.leads;
  bookings = q.bookings ∙ p.bookings;
  sales = q.sales ∙ p.sales;
  payments = q.payments ∙ p.payments;
  ownerships = q.ownerships ∙ p.ownerships;
  co_owners = q.co_owners ∙ p.co_owners;
  listings = q.listings ∙ p.listings;
  call_jobs = q.call_jobs ∙ p.call_jobs;
  call_attempts = q.call_attempts ∙ p.call_attempts;
  calls = q.calls ∙ p.calls;
  call_contexts = q.call_contexts ∙ p.call_contexts;
  follow_ups = q.follow_ups ∙ p.follow_ups;
  events = q.events ∙ p.events;
  interests = q.interests ∙ p.interests;
  roles = q.roles ∙ p.roles;
  role_permissions = q.role_permissions ∙ p.role_permissions;
  preferences = q.preferences ∙ p.preferences;
  permissions = q.permissions ∙ p.permissions;
  user_roles = q.user_roles ∙ p.user_roles;
  tenants = q.tenants ∙ p.tenants;
  lead_sources = q.lead_sources ∙ p.lead_sources;
  webhook_events = q.webhook_events ∙ p.webhook_events;
}

-- Ownership records with one id are of one tenant: what the table's primary key ensures.
abbrev pub KeyedOwnerships : Db → Type 0
KeyedOwnerships db =
    All (λ o. All (λ r. r.id ≡ o.id → r.tenant_id ≡ o.tenant_id) db.ownerships) db.ownerships

module _ {A : Type 0} where
  All-select_head :
      (P : A → Type 0) (p : A → Bool) (rs : List A) {a : A} {l : List A}
      → All P rs
      → select p rs ≡ a ∷ l
      → P a
  All-select_head P p [] h e = absurd (cc)
  All-select_head P p (r ∷ rs) {a} {l} h e = elim (Bool-cases (p r)) [
    | inl here ↦ subst P (ground arith) h.0
    | inr later ↦ All-select_head P p rs {l = l} h.1 (ground arith)
  ]

  update_where_agrees :
      (p q : A → Bool) (f : A → A) (rs : List A)
      → All (λ r. p r ≡ q r) rs
      → update_where p f rs ≡ update_where q f rs
  update_where_agrees p q f [] h = refl
  update_where_agrees p q f (r ∷ rs) h = ground (arith, update_where_agrees p q f rs h.1, h.0)

module _ (eng : Engine) (t u : ℕ) (other : u ≢ t) where
  converted_leads :
      (id : Option ℕ) (ls : List Lead)
      → select (λ (l : Lead). l.tenant_id == u) (leads_after eng t id ls)
        ≡ select (λ l. l.tenant_id == u) ls
  converted_leads none ls = refl
  converted_leads (some id) ls =
      others_updated (λ (l : Lead). l.tenant_id) u t (is_convertible_lead t id) (convert_lead eng)
        ls other (λ r e. ground (arith, ==_iff r.tenant_id t)) (λ r. refl)

  converted_db-SameFor : (b : Option Booking) (db : Db) → SameFor u db (converted_db eng t b db)
  converted_db-SameFor none db = ground arith
  converted_db-SameFor (some b) db = ground (
    arith,
    others_updated (λ (r : Booking). r.tenant_id) u t (is_booking t b.id) (convert_booking eng)
        db.bookings other (λ r e. ground (arith, ==_iff r.tenant_id t)) (λ r. refl),
    converted_leads b.lead_id db.leads,
  )

  closed_ownerships :
      (date : ℕ) (o : Ownership) (db : Db)
      → o.tenant_id ≡ t
      → All (λ r. r.id ≡ o.id → r.tenant_id ≡ o.tenant_id) db.ownerships
      → select
          (λ (r : Ownership). r.tenant_id == u)
          (update_where (λ r. r.id == o.id) (end_ownership eng date) db.ownerships)
        ≡ select (λ r. r.tenant_id == u) db.ownerships
  closed_ownerships date o db own keyed =
      ap (select (λ (r : Ownership). r.tenant_id == u)) (
        update_where_agrees (λ r. r.id == o.id) (λ r. r.id == o.id && r.tenant_id == t)
          (end_ownership eng date) db.ownerships (agrees db.ownerships keyed))
      ∙ others_updated (λ (r : Ownership). r.tenant_id) u t (λ r. r.id == o.id && r.tenant_id == t)
          (end_ownership eng date) db.ownerships other (λ r e. ground (arith, ==_iff r.tenant_id t))
          (λ r. refl)
    where
      agrees :
          (rs : List Ownership)
          → All (λ r. r.id ≡ o.id → r.tenant_id ≡ o.tenant_id) rs
          → All (λ (r : Ownership). (r.id == o.id) ≡ (r.id == o.id && r.tenant_id == t)) rs
      agrees [] h = tt
      agrees (r ∷ rs) h =
          (ground (arith, h.0, own, ==_iff r.id o.id, ==_iff r.tenant_id t), agrees rs h.1)

  closed_db-SameFor :
      (p date : ℕ) (o : Option Ownership) (db : Db)
      → KeyedOwnerships db
      → PreviousOwner t p db o
      → SameFor u db (closed_db eng t date o db)
  closed_db-SameFor p date none db keyed found = ground arith
  closed_db-SameFor p date (some o) db keyed found =
      let current = select_head (is_current t p) db.ownerships o [] found in
      ground (
        arith,
        closed_ownerships date o db (ground (arith, ==_iff o.tenant_id t))
            (All-select_head _ (is_current t p) db.ownerships keyed found),
        others_updated (λ (l : Listing). l.tenant_id) u t (is_open_listing_of t o.id)
            (convert_listing eng) db.listings other (λ r e. ground (arith, ==_iff r.tenant_id t))
            (λ r. refl),
      )

  handed_over-SameFor :
      (by : Option ℕ) (d : SaleCreate) (s : Sale) (previous : Option ℕ) (db : Db)
      → SameFor u db (handed_over eng t by d s previous db)
  handed_over-SameFor by d s previous db = ground (
    arith,
    ==_iff t u,
    others_updated (λ (r : Property). r.tenant_id) u t (is_property t d.property_id)
        (set_property_status eng "sold") db.properties other
        (λ r e. ground (arith, ==_iff r.tenant_id t)) (λ r. refl),
  )

  sold-SameFor :
      (by : Option ℕ) (d : SaleCreate) (db : Db) {s : Sale} {db' : Db}
      → KeyedOwnerships db
      → create_sale eng t by d db ≡ (ok s, db')
      → SameFor u db db'
  sold-SameFor by d db {s} {db'} keyed h =
      let sold = create_sale-ok eng t by d db h in
      let row = sale_row eng t by d db in
      let recorded : Db = record db { sales = row ∷ db.sales } in
      let mid = converted eng t by d sold.booking db in
      let closed = before_transfer eng t by d sold.booking sold.previous db in
      subst (SameFor u db) (sym sold.result) (
        SameFor-trans u db closed _
          (SameFor-trans u db mid closed
            (SameFor-trans u db recorded mid (ground (arith, ==_iff t u))
              (converted_db-SameFor sold.booking recorded))
            (closed_db-SameFor d.property_id row.sale_date sold.previous mid keyed
              sold.found_previous))
          (handed_over-SameFor by d row (id_of sold.previous) closed))

  pub create_sale-SameFor :
      (by : Option ℕ) (d : SaleCreate) (db : Db)
      → KeyedOwnerships db
      → SameFor u db (create_sale eng t by d db).1
  create_sale-SameFor by d db keyed = go (create_sale eng t by d db) refl
    where
      go :
          (r : Result Sale × Db)
          → create_sale eng t by d db ≡ r
          → SameFor u db (create_sale eng t by d db).1
      go (ok s, db') e =
          subst (SameFor u db) (ap (λ (r : Result Sale × Db). r.1) (sym e))
            (sold-SameFor by d db keyed e)
      go (raised x, db') e =
          subst (SameFor u db)
            (sym (create_sale_atomic eng t by d db (ap (λ (r : Result Sale × Db). r.0) e)))
            (ground arith)

-- The tenant that a request is served for; `none` is a super admin's request without a filter.
abbrev pub tenant_of : Request → Option ℕ
tenant_of (Request.create_booking t by d) = some t
tenant_of (Request.update_booking scope id d) = scope
tenant_of (Request.create_sale t by d) = some t
tenant_of (Request.update_sale scope id status) = scope
tenant_of (Request.create_payment t sale by d) = some t
tenant_of (Request.update_payment scope id d) = scope
tenant_of (Request.update_ownership scope id d) = scope
tenant_of (Request.add_co_owner t o d) = some t
tenant_of (Request.remove_co_owner t o id) = some t
tenant_of (Request.create_listing t by d) = some t
tenant_of (Request.update_listing scope id d) = scope

module _ (eng : Engine) (t u : ℕ) (db : Db) where
  pub served-SameFor :
      (q : Request)
      → u ≢ t
      → KeyedOwnerships db
      → tenant_of q ≡ some t
      → SameFor u db (serve eng q db)
  unfolding serve
  served-SameFor (Request.create_booking s by d) other keyed e =
      create_booking-SameFor eng s u (ground arith) by d db
  served-SameFor (Request.update_booking scope id d) other keyed e =
      rw e (update_booking-SameFor eng t u other id d db)
  served-SameFor (Request.create_sale s by d) other keyed e =
      create_sale-SameFor eng s u (ground arith) by d db keyed
  served-SameFor (Request.update_sale scope id status) other keyed e =
      rw e (update_sale-SameFor eng t u other id status db)
  served-SameFor (Request.create_payment s sale by d) other keyed e =
      create_payment-SameFor eng s u (ground arith) sale by d db
  served-SameFor (Request.update_payment scope id d) other keyed e =
      rw e (update_payment-SameFor eng t u other id d db)
  served-SameFor (Request.update_ownership scope id d) other keyed e =
      rw e (update_ownership-SameFor eng t u other id d db)
  served-SameFor (Request.add_co_owner s o d) other keyed e =
      add_co_owner-SameFor eng s u (ground arith) o d db
  served-SameFor (Request.remove_co_owner s o id) other keyed e =
      remove_co_owner-SameFor eng s u (ground arith) o id db
  served-SameFor (Request.create_listing s by d) other keyed e =
      create_listing-SameFor eng s u (ground arith) by d db
  served-SameFor (Request.update_listing scope id d) other keyed e =
      rw e (update_listing-SameFor eng t u other id d db)
