-- ===== src/Routers/Ownerships.antt =====
-- backend/app/ownerships/router.py: the endpoints of one ownership record, its co-owners and its
-- resale listings.
use realesatecrm.Base.{ℕ, some}
use realesatecrm.Db.Rows.{Ownership, CoOwner, Listing}
use realesatecrm.Db.Action.{Action, Engine, ◌>>=◌, ◌>>◌, pure}
use realesatecrm.Security.Context.{RequestContext}
use realesatecrm.Ownerships.Repository.{OwnershipUpdate, CoOwnerCreate}
use realesatecrm.Ownerships.Service as Ownerships
use realesatecrm.Ownerships.Listings as Listings
use realesatecrm.Routers.Guards.{require_permission, tenant_scope, some_tenant, ensure_access}

unfoldable pub get_ownership : ℕ → RequestContext → Action Ownership
unfolding require_permission tenant_scope ensure_access Ownerships.get_ownership
get_ownership id context = do
  require_permission "property_ownership.read" context
  scope ← tenant_scope context
  ownership ← Ownerships.get_ownership scope id
  ensure_access context ownership.tenant_id
  pure ownership

-- The one endpoint of a row that has no `ensure_tenant_resource_access`.
unfoldable pub get_current_ownership : ℕ → RequestContext → Action Ownership
unfolding require_permission tenant_scope Ownerships.get_current
get_current_ownership property_id context = do
  require_permission "property_ownership.read" context
  scope ← tenant_scope context
  Ownerships.get_current scope property_id

unfoldable pub get_resale_listing : ℕ → RequestContext → Action Listing
unfolding require_permission tenant_scope ensure_access Listings.get_listing
get_resale_listing id context = do
  require_permission "resale_listing.read" context
  scope ← tenant_scope context
  listing ← Listings.get_listing scope id
  ensure_access context listing.tenant_id
  pure listing

module _ (eng : Engine) where
  unfoldable pub update_ownership : ℕ → OwnershipUpdate → RequestContext → Action Ownership
  unfolding require_permission tenant_scope ensure_access Ownerships.get_ownership
  update_ownership id d context = do
    require_permission "property_ownership.update" context
    scope ← tenant_scope context
    ownership ← Ownerships.get_ownership scope id
    ensure_access context ownership.tenant_id
    Ownerships.update_ownership eng scope id d

  unfoldable pub add_co_owner : ℕ → CoOwnerCreate → RequestContext → Action CoOwner
  unfolding require_permission tenant_scope some_tenant ensure_access Ownerships.get_ownership
  add_co_owner ownership_id d context = do
    require_permission "property_ownership.update" context
    scope ← tenant_scope context
    t ← some_tenant scope
    ownership ← Ownerships.get_ownership (some t) ownership_id
    ensure_access context ownership.tenant_id
    Ownerships.add_co_owner eng t ownership_id d

  unfoldable pub remove_co_owner : ℕ → ℕ → RequestContext → Action (Unit {0})
  unfolding require_permission tenant_scope some_tenant ensure_access Ownerships.get_ownership
  remove_co_owner ownership_id id context = do
    require_permission "property_ownership.update" context
    scope ← tenant_scope context
    t ← some_tenant scope
    ownership ← Ownerships.get_ownership (some t) ownership_id
    ensure_access context ownership.tenant_id
    Ownerships.remove_co_owner eng t ownership_id id

  unfoldable pub create_resale_listing : Listings.ListingCreate → RequestContext → Action Listing
  unfolding require_permission tenant_scope some_tenant
  create_resale_listing d context = do
    require_permission "resale_listing.create" context
    scope ← tenant_scope context
    t ← some_tenant scope
    Listings.create_listing eng t (some context.user_id) d

  unfoldable pub update_resale_listing :
      ℕ → Listings.ListingUpdate → RequestContext → Action Listing
  unfolding require_permission tenant_scope ensure_access Listings.get_listing
  update_resale_listing id d context = do
    require_permission "resale_listing.update" context
    scope ← tenant_scope context
    listing ← Listings.get_listing scope id
    ensure_access context listing.tenant_id
    Listings.update_listing eng scope id d
