-- ===== src/Db/Checks.antt =====
-- The lookup of a referenced customer that backend/app/sales/service.py, backend/app/bookings/service.py
-- and backend/app/ownerships/service.py repeat word for word, and its siblings for the other tables.
use realesatecrm.Base.{ℕ, ◌≡◌, Bool, ◌&&◌, [], ◌∷◌, ◌==◌, select, arith}
use realesatecrm.Core.Errors.{AppError, ok}
use realesatecrm.Db.Rows.{Db, Customer, Property, Lead}
use realesatecrm.Db.Action.{Action, ◌>>=◌, gets, or_raise, one_or_none}
use realesatecrm.Db.Table.{is_null}

abbrev pub is_live_customer : ℕ → ℕ → Customer → Bool
is_live_customer t id c = c.id == id && c.tenant_id == t && is_null c.deleted_at

-- `_validate_customer`
unfoldable pub validate_customer : ℕ → ℕ → Action Customer
validate_customer t id = do
  rows ← gets (λ db. select (is_live_customer t id) db.customers)
  found ← one_or_none rows
  or_raise found (AppError.not_found "CUSTOMER_NOT_FOUND")

abbrev pub is_live_property : ℕ → ℕ → Property → Bool
is_live_property t id p = p.id == id && p.tenant_id == t && is_null p.deleted_at

-- `_validate_property`
unfoldable pub validate_property : ℕ → ℕ → Action Property
validate_property t id = do
  rows ← gets (λ db. select (is_live_property t id) db.properties)
  found ← one_or_none rows
  or_raise found (AppError.not_found "PROPERTY_NOT_FOUND")

abbrev pub is_live_lead : ℕ → ℕ → Lead → Bool
is_live_lead t id l = l.id == id && l.tenant_id == t && is_null l.deleted_at

-- `_validate_lead`
unfoldable pub validate_lead : ℕ → ℕ → Action Lead
validate_lead t id = do
  rows ← gets (λ db. select (is_live_lead t id) db.leads)
  found ← one_or_none rows
  or_raise found (AppError.not_found "LEAD_NOT_FOUND")

pub validate_customer-ok :
    (t id : ℕ) (db : Db) {c : Customer} {db' : Db}
    → validate_customer t id db ≡ (ok c, db')
    → (db' ≡ db) × (select (is_live_customer t id) db.customers ≡ c ∷ [])
unfolding validate_customer
validate_customer-ok t id db h = ground arith
