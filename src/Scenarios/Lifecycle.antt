-- ===== src/Scenarios/Lifecycle.antt =====
-- The lifecycle theorems in the town.
use realesatecrm.Base.{◌≡◌, ◌≢◌, refl, none, some, [], ◌∷◌, arith}
use realesatecrm.Core.Errors.{AppError, ok, app}
use realesatecrm.Db.Rows.{Db, Ownership}
use realesatecrm.Db.Checks.{validate_customer}
use realesatecrm.Db.Action.{atomic}
use realesatecrm.Sales.Repository.{SaleCreate}
use realesatecrm.Sales.Service.{
  create_sale, sale_transaction, record_sale, settle_sale, replace_owner, hand_over,
  lock_sellable_property, lock_sale_booking, convert_sale_booking, close_previous_ownership,
}
use realesatecrm.Sales.Repository.{insert_sale}
use realesatecrm.Sales.Atomic.{create_sale_atomic}
use realesatecrm.Sales.Ledger.{current_owners, PointsBack, OneOwner, create_sale_transfers}
use realesatecrm.Sales.Once.{no_double_sale, no_double_conversion}
use realesatecrm.Crm.{Request, serve}
use realesatecrm.Crm.History.{start, request, Reach-OneOwner}
use realesatecrm.Crm.Bookings.{Follows, HasStatus, Reach-bookings}
use realesatecrm.Db.Growth.{Grows}
use realesatecrm.Scenarios.Town.{calm, town, deal, deal_sale}

abbrev sold_town : Db
sold_town = (create_sale calm 1 none deal town).1

deal_returns : create_sale calm 1 none deal town ≡ (ok deal_sale, sold_town)
unfolding create_sale validate_customer atomic sale_transaction lock_sellable_property
    lock_sale_booking record_sale insert_sale settle_sale convert_sale_booking replace_owner
    close_previous_ownership hand_over
deal_returns = refl

create_sale_transfers_example :
    (o : Ownership) × (current_owners 1 10 sold_town ≡ o ∷ [])
    × (o.customer_id ≡ 3)
    × (o.sale_id ≡ some 900)
    × (o.ownership_start_date ≡ 20)
    × PointsBack 1 10 town o.previous_ownership_id
create_sale_transfers_example = create_sale_transfers calm 1 none deal town deal_returns

-- A customer that the tenant does not have.
abbrev unknown_buyer : SaleCreate
unknown_buyer = record deal { customer_id = 77 }

create_sale_atomic_example : (create_sale calm 1 none unknown_buyer town).1 ≡ town
unfolding create_sale validate_customer
create_sale_atomic_example =
    create_sale_atomic calm 1 none unknown_buyer town
      {e = app (AppError.not_found "CUSTOMER_NOT_FOUND")} refl

no_double_sale_example : (create_sale calm 1 none deal sold_town).0 ≢ ok deal_sale
no_double_sale_example =
    no_double_sale calm calm 1 none none deal deal town deal_returns refl deal_sale

no_double_conversion_example : (create_sale calm 1 none deal sold_town).0 ≢ ok deal_sale
no_double_conversion_example =
    no_double_conversion calm calm 1 none none deal deal town 30 deal_returns refl refl deal_sale

town-OneOwner : OneOwner town
town-OneOwner t p = ground arith

Reach-OneOwner_example : OneOwner (serve calm (Request.create_sale 1 none deal) town)
Reach-OneOwner_example =
    Reach-OneOwner (request start calm (Request.create_sale 1 none deal)) town-OneOwner

Reach-bookings_example :
    Grows HasStatus Follows town.bookings
      (serve calm (Request.create_sale 1 none deal) town).bookings
Reach-bookings_example = Reach-bookings (request start calm (Request.create_sale 1 none deal))
