-- ===== src/Sales/Ledger.antt =====
-- The ownership ledger (public.property_ownerships) across sales.
use native.Mathlib.Nat.{le_trans}
use realesatecrm.Base.{
  ℕ, ◌≤◌, ◌≡◌, refl, ap, sym, ◌∙◌, subst, subst₂, ◌⊎◌, inl, inr, true, Option, none, some, List, [],
  ◌∷◌, arith, ◌==◌, select, length, All, Bool-cases,
}
use realesatecrm.Core.Errors.{Result, ok, raised}
use realesatecrm.Db.Rows.{Db, Booking, Ownership, Sale}
use realesatecrm.Db.Action.{Engine}
use realesatecrm.Db.Table.{select-update_where_gone, length-select-update_where, select_one}
use realesatecrm.Sales.Repository.{SaleCreate, is_current, end_ownership, sale_row}
use realesatecrm.Sales.Service.{create_sale}
use realesatecrm.Sales.Steps.{PreviousOwner, closed_db, id_of}
use realesatecrm.Sales.Transaction.{
  create_sale-ok, converted, new_ownership, before_transfer, sold_db,
}
use realesatecrm.Sales.Atomic.{create_sale_atomic}

-- The rows of the owners of record of a property.
abbrev pub current_owners : ℕ → ℕ → Db → List Ownership
current_owners t p db = select (is_current t p) db.ownerships

-- No property has two owners of record.
abbrev pub OneOwner : Db → Type 0
OneOwner db = (t p : ℕ) → length (current_owners t p db) ≤ 1

closed_rows :
    (o : Ownership) (rows : List Ownership) (t p : ℕ)
    → select (is_current t p) rows ≡ o ∷ []
    → All (λ r. is_current t p r ≡ true → (r.id == o.id) ≡ true) rows
closed_rows o rows t p h = go rows (select_one (is_current t p) rows o h)
  where
    go :
        (rs : List Ownership)
        → All (λ r. is_current t p r ≡ true → r ≡ o) rs
        → All (λ r. is_current t p r ≡ true → (r.id == o.id) ≡ true) rs
    go [] a = tt
    go (r ∷ rs) a = (λ e. rw (a.0 e) (ground arith), go rs a.1)

module _ (eng : Engine) (t p : ℕ) (sale_date : ℕ) where
  -- Once the old period is closed nobody owns the property.
  closed_db-no_owner :
      (o : Option Ownership) (db : Db)
      → PreviousOwner t p db o
      → current_owners t p (closed_db eng t sale_date o db) ≡ []
  closed_db-no_owner none db h = h
  closed_db-no_owner (some o) db h =
      select-update_where_gone (is_current t p) (λ r. r.id == o.id) (end_ownership eng sale_date)
        db.ownerships (closed_rows o db.ownerships t p h) (λ r _. ground arith)

  -- Closing a period makes nobody else an owner.
  closed_db-le :
      (o : Option Ownership) (db : Db) (t' p' : ℕ)
      → length (current_owners t' p' (closed_db eng t sale_date o db))
        ≤ length (current_owners t' p' db)
  closed_db-le none db t' p' = omega arith
  closed_db-le (some o) db t' p' =
      length-select-update_where (is_current t' p') (λ r. r.id == o.id)
        (end_ownership eng sale_date) db.ownerships (λ r e. ground arith)

select_new :
    (t p : ℕ) (r : Ownership) (rows : List Ownership)
    → select (is_current t p) rows ≡ []
    → is_current t p r ≡ true
    → select (is_current t p) (r ∷ rows) ≡ r ∷ []
select_new t p r rows h e = rw (e, h)

count_new :
    (t p t' p' : ℕ) (r : Ownership) (rows : List Ownership)
    → r.tenant_id ≡ t
    → r.property_id ≡ p
    → select (is_current t p) rows ≡ []
    → length (select (is_current t' p') rows) ≤ 1
    → length (select (is_current t' p') (r ∷ rows)) ≤ 1
count_new t p t' p' r rows et ep gone few = elim (Bool-cases (is_current t' p' r)) [
  | inr e ↦ rw e few
  | inl e ↦
      let is_empty : select (is_current t' p') rows ≡ [] =
        subst₂ (λ x y. select (is_current x y) rows ≡ []) (ground arith) (ground arith) gone in
      rw (e, is_empty) (omega arith)
]

-- How a new row points back to the owner before.
abbrev pub PointsBack : ℕ → ℕ → Db → Option ℕ → Type 0
PointsBack t p db previous =
    ((current_owners t p db ≡ []) × (previous ≡ none))
    ⊎ ((old : Ownership) × (current_owners t p db ≡ old ∷ []) × (previous ≡ some old.id))

points_back :
    (t p : ℕ) (db : Db) (o : Option Ownership)
    → PreviousOwner t p db o
    → PointsBack t p db (id_of o)
points_back t p db none h = inl (h, refl)
points_back t p db (some o) h = inr (o, h, refl)

module _ (eng : Engine) (t : ℕ) (created_by : Option ℕ) (d : SaleCreate) where
  -- After a sale the buyer is the one owner of record, by a row that names the sale, starts on its
  -- date, and points back to the row of the owner of record before, if there was one.
  pub create_sale_transfers :
      (db : Db) {s : Sale} {db' : Db}
      → create_sale eng t created_by d db ≡ (ok s, db')
      → (o : Ownership) × (current_owners t d.property_id db' ≡ o ∷ [])
        × (o.customer_id ≡ d.customer_id)
        × (o.sale_id ≡ some s.id)
        × (o.ownership_start_date ≡ s.sale_date)
        × PointsBack t d.property_id db o.previous_ownership_id
  create_sale_transfers db {s} {db'} h =
      let sold = create_sale-ok eng t created_by d db h in
      let row = sale_row eng t created_by d db in
      let base = before_transfer eng t created_by d sold.booking sold.previous db in
      let none_left =
        closed_db-no_owner eng t d.property_id row.sale_date sold.previous
          (converted eng t created_by d sold.booking db) sold.found_previous in
      let new = new_ownership eng t created_by d row (id_of sold.previous) base in
      (
        new,
        ap (current_owners t d.property_id) sold.result
            ∙ select_new t d.property_id new base.ownerships none_left (ground arith),
        refl,
        ap (λ (x : Sale). some x.id) (sym sold.is_sale_row),
        ap (λ (x : Sale). x.sale_date) (sym sold.is_sale_row),
        points_back t d.property_id (converted eng t created_by d sold.booking db) sold.previous
            sold.found_previous,
      )

  owners_after :
      (db : Db) (b : Option Booking) (o : Option Ownership) (t' p' : ℕ)
      → PreviousOwner t d.property_id (converted eng t created_by d b db) o
      → OneOwner db
      → length (current_owners t' p' (sold_db eng t created_by d b o db)) ≤ 1
  owners_after db b o t' p' found one =
      let row = sale_row eng t created_by d db in
      let mid = converted eng t created_by d b db in
      let fewer = closed_db-le eng t d.property_id row.sale_date o mid t' p' in
      let gone = closed_db-no_owner eng t d.property_id row.sale_date o mid found in
      count_new t d.property_id t' p'
        (new_ownership eng t created_by d row (id_of o) (before_transfer eng t created_by d b o db))
        (closed_db eng t row.sale_date o mid).ownerships refl refl gone (le_trans fewer (one t' p'))

  -- Whether it returns or raises, and whatever the database refuses, a sale keeps it so that no
  -- property has two owners of record.
  pub create_sale-OneOwner :
      (db : Db) → OneOwner db → OneOwner (create_sale eng t created_by d db).1
  create_sale-OneOwner db one = go (create_sale eng t created_by d db) refl
    where
      go : (r : Result Sale × Db) → create_sale eng t created_by d db ≡ r → OneOwner r.1
      go (ok s, db') e =
          let sold = create_sale-ok eng t created_by d db e in
          λ t' p'.
            subst (λ x. length (current_owners t' p' x) ≤ 1) (sym sold.result)
              (owners_after db sold.booking sold.previous t' p' sold.found_previous one)
      go (raised x, db') e =
          subst OneOwner
            (sym (create_sale_atomic eng t created_by d db (ap (λ (r : Result Sale × Db). r.0) e))
              ∙ ap (λ (r : Result Sale × Db). r.1) e)
            one
