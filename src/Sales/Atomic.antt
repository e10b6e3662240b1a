-- ===== src/Sales/Atomic.antt =====
-- A `create_sale` that raises has written nothing.
use realesatecrm.Base.{ℕ, ◌≡◌, Option, arith}
use realesatecrm.Core.Errors.{raised, Raised}
use realesatecrm.Db.Rows.{Db}
use realesatecrm.Db.Action.{Engine, atomic}
use realesatecrm.Db.Checks.{validate_customer}
use realesatecrm.Sales.Repository.{SaleCreate}
use realesatecrm.Sales.Service.{create_sale}

-- Whatever the database refuses, at whatever statement, and whichever guard fails: when
-- `create_sale` raises, the database is the one that it was called with.
pub create_sale_atomic :
    (eng : Engine) (t : ℕ) (created_by : Option ℕ) (d : SaleCreate) (db : Db) {e : Raised}
    → (create_sale eng t created_by d db).0 ≡ raised e
    → (create_sale eng t created_by d db).1 ≡ db
unfolding create_sale validate_customer atomic
create_sale_atomic eng t created_by d db h = ground arith
