-- ===== src/Routers/Calls.antt =====
-- What the calls leave behind, and what guards stand before a change.
use realesatecrm.Base.{ℕ, ◌≡◌, refl, ap, sym, ◌∙◌, ◌⊎◌, inl, inr, String, Option, none, some, arith}
use realesatecrm.Core.Errors.{Raised, Result, ok, raised}
use realesatecrm.Db.Rows.{Db}
use realesatecrm.Db.Action.{Engine}
use realesatecrm.Security.Context.{RequestContext}
use realesatecrm.Security.Permissions.{check_permission, resolve_tenant_scope}
use realesatecrm.Bookings.Repository.{BookingCreate, BookingUpdate}
use realesatecrm.Sales.Repository.{SaleCreate}
use realesatecrm.Sales.Payments.{PaymentCreate, PaymentUpdate}
use realesatecrm.Ownerships.Repository.{OwnershipUpdate, CoOwnerCreate}
use realesatecrm.Ownerships.Listings.{ListingCreate, ListingUpdate}
use realesatecrm.Crm.{Request, serve}
use realesatecrm.Crm.Isolation.{tenant_of}
use realesatecrm.Routers.Call.{Call, permission_of}
use realesatecrm.Routers.Bookings.{create_booking, update_booking}
use realesatecrm.Routers.Sales.{create_sale, update_sale, create_payment, update_payment}
use realesatecrm.Routers.Ownerships.{
  update_ownership, add_co_owner, remove_co_owner, create_resale_listing, update_resale_listing,
}

-- What a call leaves behind, whether it returns or raises.
unfoldable pub answer : Engine → RequestContext → Call → Db → Db
answer eng c (Call.create_booking d) db = (create_booking eng d c db).1
answer eng c (Call.update_booking id d) db = (update_booking eng id d c db).1
answer eng c (Call.create_sale d) db = (create_sale eng d c db).1
answer eng c (Call.update_sale id status) db = (update_sale eng id status c db).1
answer eng c (Call.create_payment sale d) db = (create_payment eng sale d c db).1
answer eng c (Call.update_payment sale id d) db = (update_payment eng sale id d c db).1
answer eng c (Call.update_ownership id d) db = (update_ownership eng id d c db).1
answer eng c (Call.add_co_owner o d) db = (add_co_owner eng o d c db).1
answer eng c (Call.remove_co_owner o id) db = (remove_co_owner eng o id c db).1
answer eng c (Call.create_listing d) db = (create_resale_listing eng d c db).1
answer eng c (Call.update_listing id d) db = (update_resale_listing eng id d c db).1

-- A call changes nothing, or it has passed the check of its permission and is served as one request
-- under the tenant filter of its context.
abbrev pub Guarded : Engine → RequestContext → Call → Db → Type 0
Guarded eng c call db =
    (answer eng c call db ≡ db)
    ⊎ ((q : Request) × (check_permission c (permission_of call) ≡ ok tt)
        × (resolve_tenant_scope c none ≡ ok (tenant_of q))
        × (answer eng c call db ≡ serve eng q db))

Result-cases :
    {A : Type 0} (r : Result A) → ((e : Raised) × (r ≡ raised e)) ⊎ ((a : A) × (r ≡ ok a))
Result-cases (ok a) = inr (a, refl)
Result-cases (raised e) = inl (e, refl)

-- What a call leaves under a tenant filter: nothing new, or what one request of that tenant leaves.
abbrev ServedIn : Engine → RequestContext → Call → Db → Option ℕ → Type 0
ServedIn eng c call db scope =
    (answer eng c call db ≡ db)
    ⊎ ((q : Request) × (tenant_of q ≡ scope) × (answer eng c call db ≡ serve eng q db))

module _ (eng : Engine) (c : RequestContext) (db : Db) where
  by_guards :
      (call : Call)
      → ((x : Raised)
          → check_permission c (permission_of call) ≡ raised x
          → answer eng c call db ≡ db)
      → ((x : Raised) → resolve_tenant_scope c none ≡ raised x → answer eng c call db ≡ db)
      → ((scope : Option ℕ)
          → check_permission c (permission_of call) ≡ ok tt
          → resolve_tenant_scope c none ≡ ok scope
          → ServedIn eng c call db scope)
      → Guarded eng c call db
  by_guards call unchecked unscoped served =
      elim (Result-cases (check_permission c (permission_of call))) [
        | inl (x, e) ↦ inl (unchecked x e)
        | inr (_, e) ↦ elim (Result-cases (resolve_tenant_scope c none)) [
          | inl (x, f) ↦ inl (unscoped x f)
          | inr (scope, f) ↦ elim (served scope e f) [
            | inl same ↦ inl same
            | inr (q, g, h) ↦ inr (q, e, f ∙ ap ok (sym g), h)
          ]
        ]
      ]

  -- Under a filter that names no tenant, some calls raise; under one that does, they are requests.
  by_tenant :
      (call : Call) (scope : Option ℕ)
      → (scope ≡ none → answer eng c call db ≡ db)
      → ((t : ℕ) → scope ≡ some t → ServedIn eng c call db (some t))
      → ServedIn eng c call db scope
  by_tenant call none missing present = inl (missing refl)
  by_tenant call (some t) missing present = present t refl

  as_request :
      (call : Call) (q : Request)
      → (answer eng c call db ≡ db) ⊎ (answer eng c call db ≡ serve eng q db)
      → ServedIn eng c call db (tenant_of q)
  as_request call q (inl same) = inl same
  as_request call q (inr done) = inr (q, refl, done)

  create_booking-Guarded : (d : BookingCreate) → Guarded eng c (Call.create_booking d) db
  unfolding answer serve create_booking
  create_booking-Guarded d =
      by_guards (Call.create_booking d) (λ x e. ground arith) (λ x f. ground arith)
        λ scope e f.
          by_tenant (Call.create_booking d) scope (λ g. ground arith)
            λ t g.
              as_request (Call.create_booking d) (Request.create_booking t (some c.user_id) d)
                (ground arith)

  update_booking-Guarded :
      (id : ℕ) (d : BookingUpdate) → Guarded eng c (Call.update_booking id d) db
  unfolding answer serve update_booking
  update_booking-Guarded id d =
      by_guards (Call.update_booking id d) (λ x e. ground arith) (λ x f. ground arith)
        λ scope e f.
          as_request (Call.update_booking id d) (Request.update_booking scope id d) (ground arith)

  create_sale-Guarded : (d : SaleCreate) → Guarded eng c (Call.create_sale d) db
  unfolding answer serve create_sale
  create_sale-Guarded d =
      by_guards (Call.create_sale d) (λ x e. ground arith) (λ x f. ground arith)
        λ scope e f.
          by_tenant (Call.create_sale d) scope (λ g. ground arith)
            λ t g.
              as_request (Call.create_sale d) (Request.create_sale t (some c.user_id) d)
                (ground arith)

  update_sale-Guarded : (id : ℕ) (status : String) → Guarded eng c (Call.update_sale id status) db
  unfolding answer serve update_sale
  update_sale-Guarded id status =
      by_guards (Call.update_sale id status) (λ x e. ground arith) (λ x f. ground arith)
        λ scope e f.
          as_request (Call.update_sale id status) (Request.update_sale scope id status)
            (ground arith)

  create_payment-Guarded :
      (sale : ℕ) (d : PaymentCreate) → Guarded eng c (Call.create_payment sale d) db
  unfolding answer serve create_payment
  create_payment-Guarded sale d =
      by_guards (Call.create_payment sale d) (λ x e. ground arith) (λ x f. ground arith)
        λ scope e f.
          by_tenant (Call.create_payment sale d) scope (λ g. ground arith)
            λ t g.
              as_request (Call.create_payment sale d)
                (Request.create_payment t sale (some c.user_id) d) (ground arith)

  update_payment-Guarded :
      (sale id : ℕ) (d : PaymentUpdate) → Guarded eng c (Call.update_payment sale id d) db
  unfolding answer serve update_payment
  update_payment-Guarded sale id d =
      by_guards (Call.update_payment sale id d) (λ x e. ground arith) (λ x f. ground arith)
        λ scope e f.
          as_request (Call.update_payment sale id d) (Request.update_payment scope id d)
            (ground arith)

  update_ownership-Guarded :
      (id : ℕ) (d : OwnershipUpdate) → Guarded eng c (Call.update_ownership id d) db
  unfolding answer serve update_ownership
  update_ownership-Guarded id d =
      by_guards (Call.update_ownership id d) (λ x e. ground arith) (λ x f. ground arith)
        λ scope e f.
          as_request (Call.update_ownership id d) (Request.update_ownership scope id d)
            (ground arith)

  add_co_owner-Guarded : (o : ℕ) (d : CoOwnerCreate) → Guarded eng c (Call.add_co_owner o d) db
  unfolding answer serve add_co_owner
  add_co_owner-Guarded o d =
      by_guards (Call.add_co_owner o d) (λ x e. ground arith) (λ x f. ground arith)
        λ scope e f.
          by_tenant (Call.add_co_owner o d) scope (λ g. ground arith)
            λ t g. as_request (Call.add_co_owner o d) (Request.add_co_owner t o d) (ground arith)

  remove_co_owner-Guarded : (o id : ℕ) → Guarded eng c (Call.remove_co_owner o id) db
  unfolding answer serve remove_co_owner
  remove_co_owner-Guarded o id =
      by_guards (Call.remove_co_owner o id) (λ x e. ground arith) (λ x f. ground arith)
        λ scope e f.
          by_tenant (Call.remove_co_owner o id) scope (λ g. ground arith)
            λ t g.
              as_request (Call.remove_co_owner o id) (Request.remove_co_owner t o id) (ground arith)

  create_listing-Guarded : (d : ListingCreate) → Guarded eng c (Call.create_listing d) db
  unfolding answer serve create_resale_listing
  create_listing-Guarded d =
      by_guards (Call.create_listing d) (λ x e. ground arith) (λ x f. ground arith)
        λ scope e f.
          by_tenant (Call.create_listing d) scope (λ g. ground arith)
            λ t g.
              as_request (Call.create_listing d) (Request.create_listing t (some c.user_id) d)
                (ground arith)

  update_listing-Guarded :
      (id : ℕ) (d : ListingUpdate) → Guarded eng c (Call.update_listing id d) db
  unfolding answer serve update_resale_listing
  update_listing-Guarded id d =
      by_guards (Call.update_listing id d) (λ x e. ground arith) (λ x f. ground arith)
        λ scope e f.
          as_request (Call.update_listing id d) (Request.update_listing scope id d) (ground arith)

  pub answer-Guarded : (call : Call) → Guarded eng c call db
  answer-Guarded (Call.create_booking d) = create_booking-Guarded d
  answer-Guarded (Call.update_booking id d) = update_booking-Guarded id d
  answer-Guarded (Call.create_sale d) = create_sale-Guarded d
  answer-Guarded (Call.update_sale id status) = update_sale-Guarded id status
  answer-Guarded (Call.create_payment sale d) = create_payment-Guarded sale d
  answer-Guarded (Call.update_payment sale id d) = update_payment-Guarded sale id d
  answer-Guarded (Call.update_ownership id d) = update_ownership-Guarded id d
  answer-Guarded (Call.add_co_owner o d) = add_co_owner-Guarded o d
  answer-Guarded (Call.remove_co_owner o id) = remove_co_owner-Guarded o id
  answer-Guarded (Call.create_listing d) = create_listing-Guarded d
  answer-Guarded (Call.update_listing id d) = update_listing-Guarded id d
