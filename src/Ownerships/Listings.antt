-- ===== src/Ownerships/Listings.antt =====
-- backend/app/ownerships: PropertyResaleListingRepository and PropertyResaleListingService.
use realesatecrm.Base.{
  ℕ, String, Text, Bool, not, ◌&&◌, ◌||◌, Option, none, some, ◌∷◌, ◌==◌, str_eq, if◌then◌else◌,
  select, ltb, length,
}
use realesatecrm.Core.Errors.{AppError, DbError, Raised, app, mentions, clean_error}
use realesatecrm.Db.Rows.{Db, Listing}
use realesatecrm.Db.Action.{
  Action, Stmt, Engine, ◌>>=◌, ◌>>◌, pure, gets, raise_if, or_raise, one_or_none, execute,
  except_dbapi, refuse,
}
use realesatecrm.Db.Table.{update_where, coalesce, in_scope, is_null}
use realesatecrm.Ownerships.Repository as Owners
use realesatecrm.Ownerships.Service.{ownership_not_found}

-- PropertyResaleListingCreate
pub record ListingCreate : Type 0 where
  pub ownership_id : ℕ
  pub asking_price : Option ℕ
  pub notes : Option Text

-- PropertyResaleListingUpdate; each field is `none` where the request does not set it.
pub record ListingUpdate : Type 0 where
  pub listing_status : Option (Option String)
  pub asking_price : Option (Option ℕ)
  pub notes : Option (Option Text)

-- The inner join of `get_by_id`: the listing's ownership record has to be there.
abbrev pub has_ownership : Db → Listing → Bool
has_ownership db l = ltb 0 (length (select (λ o. o.id == l.ownership_id) db.ownerships))

-- The join has a row for each matching ownership record, and ids are unique: one row, or none.
abbrev pub is_visible_listing : Option ℕ → ℕ → Db → Listing → Bool
is_visible_listing scope id db l = l.id == id && in_scope scope l.tenant_id && has_ownership db l

unfoldable pub get_by_id : Option ℕ → ℕ → Action (Option Listing)
get_by_id scope id = do
  rows ← gets (λ db. select (is_visible_listing scope id db) db.listings)
  one_or_none rows

abbrev pub is_updated_listing : Option ℕ → ℕ → Listing → Bool
is_updated_listing scope id l = l.id == id && in_scope scope l.tenant_id

abbrev pub listing_not_found : AppError
listing_not_found = AppError.not_found "RESALE_LISTING_NOT_FOUND"

module _ (eng : Engine) where
  abbrev pub listing_row : ℕ → Option ℕ → ListingCreate → Db → Listing
  listing_row t created_by d db = record {
    id = eng.new_id Stmt.insert_listing db;
    tenant_id = t;
    ownership_id = d.ownership_id;
    asking_price = d.asking_price;
    listing_status = "open";
    notes = d.notes;
    created_by = created_by;
    updated_at = eng.now;
  }

  unfoldable pub insert_listing : ℕ → Option ℕ → ListingCreate → Action Listing
  insert_listing t created_by d = execute eng Stmt.insert_listing (λ db.
      let row = listing_row t created_by d db in (row, record db { listings = row ∷ db.listings }))

  abbrev pub set_listing : Option String → ListingUpdate → Listing → Listing
  set_listing status d l = record l {
    listing_status = coalesce status l.listing_status;
    asking_price = coalesce d.asking_price l.asking_price;
    notes = coalesce d.notes l.notes;
    updated_at = eng.now;
  }

  update_rows : Option ℕ → ℕ → Option String → ListingUpdate → Action (Option Listing)
  update_rows scope id status d = do
    rows ← execute eng Stmt.update_listing (λ db.
        let rows = update_where (is_updated_listing scope id) (set_listing status d) db.listings in
        (select (is_updated_listing scope id) rows, record db { listings = rows }))
    one_or_none rows

  -- A status that the request sets to `None` is NULL in a column that is NOT NULL. The row is only
  -- read where the request sets no field.
  update_by_status : Option ℕ → ℕ → Option (Option String) → ListingUpdate → Action (Option Listing)
  unfolding get_by_id update_rows
  update_by_status scope id (some none) d = refuse (eng.null_refusal Stmt.update_listing)
  update_by_status scope id (some (some status)) d = update_rows scope id (some status) d
  update_by_status scope id none d = elim d.asking_price [
    | some p ↦ update_rows scope id none d
    | none ↦ elim d.notes [ some n ↦ update_rows scope id none d | none ↦ get_by_id scope id ]
  ]

  unfoldable pub update : Option ℕ → ℕ → ListingUpdate → Action (Option Listing)
  unfolding update_by_status
  update scope id d = update_by_status scope id d.listing_status d

  -- The `except DBAPIError` clause of `create_listing`.
  unfoldable pub listing_error : DbError → Raised
  listing_error e =
      if mentions e "uq_property_resale_listings_one_open_per_ownership"
        || mentions e "duplicate key"
      then app (AppError.conflict "DUPLICATE_OPEN_RESALE_LISTING")
      else clean_error e

  unfoldable pub create_listing : ℕ → Option ℕ → ListingCreate → Action Listing
  unfolding Owners.get_by_id insert_listing
  create_listing t created_by d = do
    row ← Owners.get_by_id (some t) d.ownership_id
    ownership ← or_raise row ownership_not_found
    raise_if (not (is_null ownership.ownership_end_date))
        (AppError.validation "OWNERSHIP_NOT_CURRENT")
    except_dbapi (insert_listing t created_by d) listing_error

-- `if data.listing_status is not None`: the guards on a requested status.
unfoldable pub check_listing_status : Option (Option String) → Listing → Action (Unit {0})
check_listing_status none existing = pure tt
check_listing_status (some none) existing = pure tt
check_listing_status (some (some status)) existing = do
  raise_if (not (str_eq status "withdrawn"))
      (AppError.validation "INVALID_LISTING_STATUS_TRANSITION")
  raise_if (not (str_eq existing.listing_status "open")) (AppError.conflict "LISTING_NOT_OPEN")

unfoldable pub get_listing : Option ℕ → ℕ → Action Listing
unfolding get_by_id
get_listing scope id = do row ← get_by_id scope id; or_raise row listing_not_found

module _ (eng : Engine) where
  unfoldable pub update_listing : Option ℕ → ℕ → ListingUpdate → Action Listing
  unfolding get_by_id check_listing_status update
  update_listing scope id d = do
    row ← get_by_id scope id
    existing ← or_raise row listing_not_found
    check_listing_status d.listing_status existing
    updated ← except_dbapi (update eng scope id d) clean_error
    or_raise updated listing_not_found
