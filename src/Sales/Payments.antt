-- ===== src/Sales/Payments.antt =====
-- backend/app/sales: PropertySalePaymentRepository and PropertySalePaymentService.
use realesatecrm.Base.{ℕ, String, Text, Bool, ◌&&◌, Option, none, some, ◌∷◌, ◌==◌, select}
use realesatecrm.Core.Errors.{AppError, clean_error}
use realesatecrm.Db.Rows.{Db, Payment}
use realesatecrm.Db.Action.{
  Action, Stmt, Engine, ◌>>=◌, ◌>>◌, gets, or_raise, one_or_none, execute, except_dbapi, refuse,
}
use realesatecrm.Db.Table.{update_where, coalesce, in_scope}
use realesatecrm.Sales.Repository as SaleRows

-- PropertySalePaymentCreate
pub record PaymentCreate : Type 0 where
  pub payment_date : Option ℕ
  pub amount : ℕ
  pub payment_mode : String
  pub payment_status : String
  pub reference_number : Option Text
  pub notes : Option Text

-- PropertySalePaymentUpdate; each field is `none` where the request does not set it.
pub record PaymentUpdate : Type 0 where
  pub payment_status : Option (Option String)
  pub reference_number : Option (Option Text)
  pub notes : Option (Option Text)

abbrev pub payment_not_found : AppError
payment_not_found = AppError.not_found "PAYMENT_NOT_FOUND"

abbrev pub sale_not_found : AppError
sale_not_found = AppError.not_found "PROPERTY_SALE_NOT_FOUND"

abbrev pub is_visible_payment : Option ℕ → ℕ → Payment → Bool
is_visible_payment scope id p = p.id == id && in_scope scope p.tenant_id

unfoldable pub get_by_id : Option ℕ → ℕ → Action (Option Payment)
get_by_id scope id = do
  rows ← gets (λ db. select (is_visible_payment scope id) db.payments)
  one_or_none rows

unfoldable pub get_payment : Option ℕ → ℕ → Action Payment
unfolding get_by_id
get_payment scope id = do row ← get_by_id scope id; or_raise row payment_not_found

module _ (eng : Engine) where
  abbrev pub payment_row : ℕ → ℕ → Option ℕ → PaymentCreate → Db → Payment
  payment_row t sale_id created_by d db = record {
    id = eng.new_id Stmt.insert_payment db;
    tenant_id = t;
    sale_id = sale_id;
    payment_date = coalesce d.payment_date eng.today;
    amount = d.amount;
    payment_mode = d.payment_mode;
    payment_status = d.payment_status;
    reference_number = d.reference_number;
    notes = d.notes;
    created_by = created_by;
    updated_at = eng.now;
  }

  unfoldable pub create : ℕ → ℕ → Option ℕ → PaymentCreate → Action Payment
  create t sale_id created_by d = execute eng Stmt.insert_payment (λ db.
      let row = payment_row t sale_id created_by d db in
      (row, record db { payments = row ∷ db.payments }))

  abbrev pub set_payment : Option String → PaymentUpdate → Payment → Payment
  set_payment status d p = record p {
    payment_status = coalesce status p.payment_status;
    reference_number = coalesce d.reference_number p.reference_number;
    notes = coalesce d.notes p.notes;
    updated_at = eng.now;
  }

  update_rows : Option ℕ → ℕ → Option String → PaymentUpdate → Action (Option Payment)
  update_rows scope id status d = do
    rows ← execute eng Stmt.update_payment (λ db.
        let rows = update_where (is_visible_payment scope id) (set_payment status d) db.payments in
        (select (is_visible_payment scope id) rows, record db { payments = rows }))
    one_or_none rows

  -- A status that the request sets to `None` is NULL in a column that is NOT NULL. The row is only
  -- read where the request sets no field.
  update_by_status : Option ℕ → ℕ → Option (Option String) → PaymentUpdate → Action (Option Payment)
  unfolding get_by_id update_rows
  update_by_status scope id (some none) d = refuse (eng.null_refusal Stmt.update_payment)
  update_by_status scope id (some (some status)) d = update_rows scope id (some status) d
  update_by_status scope id none d = elim d.reference_number [
    | some r ↦ update_rows scope id none d
    | none ↦ elim d.notes [ some n ↦ update_rows scope id none d | none ↦ get_by_id scope id ]
  ]

  unfoldable pub update : Option ℕ → ℕ → PaymentUpdate → Action (Option Payment)
  unfolding update_by_status
  update scope id d = update_by_status scope id d.payment_status d

  unfoldable pub create_payment : ℕ → ℕ → Option ℕ → PaymentCreate → Action Payment
  unfolding SaleRows.get_by_id create
  create_payment t sale_id created_by d = do
    row ← SaleRows.get_by_id (some t) sale_id
    or_raise row sale_not_found
    except_dbapi (create t sale_id created_by d) clean_error

  unfoldable pub update_payment : Option ℕ → ℕ → PaymentUpdate → Action Payment
  unfolding get_by_id update
  update_payment scope id d = do
    row ← get_by_id scope id
    or_raise row payment_not_found
    updated ← except_dbapi (update scope id d) clean_error
    or_raise updated payment_not_found
