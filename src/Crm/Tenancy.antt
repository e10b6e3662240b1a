-- ===== src/Crm/Tenancy.antt =====
-- What a request of one tenant does to the rows of the others.
use realesatecrm.Base.{
  ℕ, ◌≡◌, ◌≢◌, refl, true, Bool, String, Option, none, some, List, [], ◌∷◌, arith, ◌==◌, ==_iff,
  ◌&&◌, select,
}
use realesatecrm.Db.Rows.{Db, Booking, Sale, Payment, Ownership, CoOwner, Listing}
use realesatecrm.Db.Action.{Engine}
use realesatecrm.Db.Table.{update_where, delete_where, in_scope, select-update_where_off}
use realesatecrm.Bookings.Repository.{
  BookingCreate, BookingUpdate, is_visible_booking, set_notes_and_status,
}
use realesatecrm.Bookings.Service.{create_booking, update_booking}
use realesatecrm.Sales.Repository.{set_sale_status}
use realesatecrm.Sales.Service.{update_sale}
use realesatecrm.Sales.Payments.{
  PaymentCreate, PaymentUpdate, is_visible_payment, set_payment, create_payment, update_payment,
}
use realesatecrm.Ownerships.Repository.{
  OwnershipUpdate, CoOwnerCreate, is_visible_ownership, set_ownership, is_co_owner,
}
use realesatecrm.Ownerships.Service.{update_ownership, add_co_owner, remove_co_owner}
use realesatecrm.Ownerships.Listings.{
  ListingCreate, ListingUpdate, is_updated_listing, set_listing, create_listing, update_listing,
}

-- A tenant's rows are the same in both databases, and so are the tables of which not every row has a
-- tenant.
pub record SameFor (u : ℕ) (db db' : Db) : Type 0 where
  pub customers :
      select (λ r. r.tenant_id == u) db'.customers ≡ select (λ r. r.tenant_id == u) db.customers
  pub properties :
      select (λ r. r.tenant_id == u) db'.properties ≡ select (λ r. r.tenant_id == u) db.properties
  pub leads : select (λ r. r.tenant_id == u) db'.leads ≡ select (λ r. r.tenant_id == u) db.leads
  pub bookings :
      select (λ r. r.tenant_id == u) db'.bookings ≡ select (λ r. r.tenant_id == u) db.bookings
  pub sales : select (λ r. r.tenant_id == u) db'.sales ≡ select (λ r. r.tenant_id == u) db.sales
  pub payments :
      select (λ r. r.tenant_id == u) db'.payments ≡ select (λ r. r.tenant_id == u) db.payments
  pub ownerships :
      select (λ r. r.tenant_id == u) db'.ownerships ≡ select (λ r. r.tenant_id == u) db.ownerships
  pub co_owners :
      select (λ r. r.tenant_id == u) db'.co_owners ≡ select (λ r. r.tenant_id == u) db.co_owners
  pub listings :
      select (λ r. r.tenant_id == u) db'.listings ≡ select (λ r. r.tenant_id == u) db.listings
  pub call_jobs :
      select (λ r. r.tenant_id == u) db'.call_jobs ≡ select (λ r. r.tenant_id == u) db.call_jobs
  pub call_attempts :
      select (λ r. r.tenant_id == u) db'.call_attempts
      ≡ select (λ r. r.tenant_id == u) db.call_attempts
  pub calls : select (λ r. r.tenant_id == u) db'.calls ≡ select (λ r. r.tenant_id == u) db.calls
  pub call_contexts :
      select (λ r. r.tenant_id == u) db'.call_contexts
      ≡ select (λ r. r.tenant_id == u) db.call_contexts
  pub follow_ups :
      select (λ r. r.tenant_id == u) db'.follow_ups ≡ select (λ r. r.tenant_id == u) db.follow_ups
  pub events : select (λ r. r.tenant_id == u) db'.events ≡ select (λ r. r.tenant_id == u) db.events
  pub interests :
      select (λ r. r.tenant_id == u) db'.interests ≡ select (λ r. r.tenant_id == u) db.interests
  pub roles : db'.roles ≡ db.roles
  pub role_permissions : db'.role_permissions ≡ db.role_permissions
  pub preferences : db'.preferences ≡ db.preferences
  pub permissions : db'.permissions ≡ db.permissions
  pub user_roles : db'.user_roles ≡ db.user_roles
  pub tenants : db'.tenants ≡ db.tenants
  pub lead_sources : db'.lead_sources ≡ db.lead_sources
  pub webhook_events : db'.webhook_events ≡ db.webhook_events

module _ {A : Type 0} (tenant_of : A → ℕ) (u : ℕ) where
  -- An update of another tenant's rows that leaves them theirs.
  pub others_updated :
      (t : ℕ) (q : A → Bool) (f : A → A) (rs : List A)
      → u ≢ t
      → ((r : A) → q r ≡ true → tenant_of r ≡ t)
      → ((r : A) → tenant_of (f r) ≡ tenant_of r)
      → select (λ r. tenant_of r == u) (update_where q f rs) ≡ select (λ r. tenant_of r == u) rs
  others_updated t q f rs other hits keeps =
      select-update_where_off (λ r. tenant_of r == u) q f rs
        (λ r e. ground (arith, hits r e, ==_iff (tenant_of r) u))
        (λ r e. ground (arith, hits r e, keeps r, ==_iff (tenant_of (f r)) u))

  -- A deletion of another tenant's rows.
  pub others_deleted :
      (t : ℕ) (q : A → Bool) (rs : List A)
      → u ≢ t
      → ((r : A) → q r ≡ true → tenant_of r ≡ t)
      → select (λ r. tenant_of r == u) (delete_where q rs) ≡ select (λ r. tenant_of r == u) rs
  others_deleted t q [] other hits = refl
  others_deleted t q (r ∷ rs) other hits =
      ground (arith, others_deleted t q rs other hits, hits r, ==_iff (tenant_of r) u)

-- The status that a request asks for.
abbrev asked : Option (Option String) → Option String
asked none = none
asked (some none) = none
asked (some (some status)) = some status

module _ (eng : Engine) (t u : ℕ) (other : u ≢ t) where
  pub create_booking-SameFor :
      (by : Option ℕ) (d : BookingCreate) (db : Db) → SameFor u db (create_booking eng t by d db).1
  unfolding create_booking
  create_booking-SameFor by d db = ground (arith, ==_iff t u)

  pub update_booking-SameFor :
      (id : ℕ) (d : BookingUpdate) (db : Db) → SameFor u db (update_booking eng (some t) id d db).1
  unfolding update_booking
  update_booking-SameFor id d db = ground (
    arith,
    others_updated (λ (b : Booking). b.tenant_id) u t (is_visible_booking (some t) id)
        (set_notes_and_status eng d.booking_status d.notes) db.bookings other
        (λ r e. ground (arith, ==_iff r.tenant_id t)) (λ r. refl),
  )

  pub update_sale-SameFor :
      (id : ℕ) (status : String) (db : Db) → SameFor u db (update_sale eng (some t) id status db).1
  unfolding update_sale
  update_sale-SameFor id status db = ground (
    arith,
    others_updated (λ (s : Sale). s.tenant_id) u t
        (λ (s : Sale). s.id == id && in_scope (some t) s.tenant_id) (set_sale_status eng status)
        db.sales other (λ r e. ground (arith, ==_iff r.tenant_id t)) (λ r. refl),
  )

  pub create_payment-SameFor :
      (sale : ℕ) (by : Option ℕ) (d : PaymentCreate) (db : Db)
      → SameFor u db (create_payment eng t sale by d db).1
  unfolding create_payment
  create_payment-SameFor sale by d db = ground (arith, ==_iff t u)

  pub update_payment-SameFor :
      (id : ℕ) (d : PaymentUpdate) (db : Db) → SameFor u db (update_payment eng (some t) id d db).1
  unfolding update_payment
  update_payment-SameFor id d db = ground (
    arith,
    others_updated (λ (p : Payment). p.tenant_id) u t (is_visible_payment (some t) id)
        (set_payment eng (asked d.payment_status) d) db.payments other
        (λ r e. ground (arith, ==_iff r.tenant_id t)) (λ r. refl),
  )

  pub update_ownership-SameFor :
      (id : ℕ) (d : OwnershipUpdate) (db : Db)
      → SameFor u db (update_ownership eng (some t) id d db).1
  unfolding update_ownership
  update_ownership-SameFor id d db = ground (
    arith,
    others_updated (λ (o : Ownership). o.tenant_id) u t (is_visible_ownership (some t) id)
        (set_ownership eng d.verified_by d.ownership_status) db.ownerships other
        (λ r e. ground (arith, ==_iff r.tenant_id t)) (λ r. refl),
  )

  pub add_co_owner-SameFor :
      (o : ℕ) (d : CoOwnerCreate) (db : Db) → SameFor u db (add_co_owner eng t o d db).1
  unfolding add_co_owner
  add_co_owner-SameFor o d db = ground (arith, ==_iff t u)

  pub remove_co_owner-SameFor :
      (o id : ℕ) (db : Db) → SameFor u db (remove_co_owner eng t o id db).1
  unfolding remove_co_owner
  remove_co_owner-SameFor o id db = ground (
    arith,
    others_deleted (λ (c : CoOwner). c.tenant_id) u t (is_co_owner t o id) db.co_owners other
        (λ r e. ground (arith, ==_iff r.tenant_id t)),
  )

  pub create_listing-SameFor :
      (by : Option ℕ) (d : ListingCreate) (db : Db) → SameFor u db (create_listing eng t by d db).1
  unfolding create_listing
  create_listing-SameFor by d db = ground (arith, ==_iff t u)

  pub update_listing-SameFor :
      (id : ℕ) (d : ListingUpdate) (db : Db) → SameFor u db (update_listing eng (some t) id d db).1
  unfolding update_listing
  update_listing-SameFor id d db = ground (
    arith,
    others_updated (λ (l : Listing). l.tenant_id) u t (is_updated_listing (some t) id)
        (set_listing eng (asked d.listing_status) d) db.listings other
        (λ r e. ground (arith, ==_iff r.tenant_id t)) (λ r. refl),
  )
