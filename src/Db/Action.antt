-- ===== src/Db/Action.antt =====
-- What a coroutine of a service or repository does: it reads and writes the session's view of the
-- database, and returns or raises. The database comes back after a raise too.
-- `atomic` is backend/app/db/transaction.py.
use realesatecrm.Base.{ℕ, Option, none, some, List, [], ◌∷◌, Bool, if◌then◌else◌}
use realesatecrm.Core.Errors.{
  AppError, DbError, Raised, Result, ok, raised, dbapi, multiple_results, no_result, value_error,
  app,
}
use realesatecrm.Db.Rows.{Db}

-- The statements that write, named after the repository methods that issue them.
pub data Stmt : Type 0 where
  insert_booking update_booking insert_sale mark_booking_converted mark_lead_converted : Stmt
  close_ownership close_open_listing insert_ownership update_property_status : Stmt
  update_sale_status insert_payment update_payment update_ownership : Stmt
  insert_co_owner delete_co_owner insert_listing update_listing insert_customer insert_lead : Stmt
  insert_event insert_call_job update_call_job reconcile_call_job cancel_call_jobs : Stmt
  insert_snapshot insert_attempt update_attempt insert_call update_call update_follow_up : Stmt
  insert_role update_role delete_role_permissions insert_role_permissions insert_interest : Stmt
  insert_webhook_event update_webhook_event update_tracked_call : Stmt

-- What PostgreSQL decides and the program does not: whether a statement is refused, how it refuses
-- NULL in a column that is NOT NULL, the new row's `gen_random_uuid()`, whether another transaction
-- has locked a row, `CURRENT_DATE` and `NOW()` in seconds.
-- Nothing is assumed of it here.
pub record Engine : Type 0 where
  pub fault : Stmt → Db → Option DbError
  pub null_refusal : Stmt → DbError
  pub new_id : Stmt → Db → ℕ
  pub locked : ℕ → Db → Bool
  pub today : ℕ
  pub now : ℕ

abbrev pub Action {ℓ} : Type ℓ → Type ℓ
Action A = Db → Result A × Db

infixl 5 ◌>>=◌ ◌>>◌
abbrev pub ◌>>=◌ {ℓ κ} : {A : Type ℓ} {B : Type κ} → Action A → (A → Action B) → Action B
◌>>=◌ m f db = let (r, db') = m db in elim r [ ok a ↦ f a db' | raised e ↦ (raised e, db') ]

abbrev pub ◌>>◌ {ℓ κ} : {A : Type ℓ} {B : Type κ} → Action A → Action B → Action B
m >> k = m >>= λ _. k

abbrev pub raise {ℓ} : {A : Type ℓ} → AppError → Action A
raise e db = (raised (app e), db)

abbrev pub raise_if : Bool → AppError → Action (Unit {0})
raise_if c e db = (if c then raised (app e) else ok tt, db)

module _ {A : Type 0} where
  abbrev pub pure : A → Action A
  pure a db = (ok a, db)

  abbrev pub gets : (Db → A) → Action A
  gets f db = (ok (f db), db)

  -- `if not row: raise e`
  abbrev pub or_raise : Option A → AppError → Action A
  or_raise none e = raise e
  or_raise (some a) e = pure a

  -- `result.mappings().one_or_none()`
  abbrev pub one_or_none : List A → Action (Option A)
  one_or_none [] db = (ok none, db)
  one_or_none (a ∷ []) db = (ok (some a), db)
  one_or_none (a ∷ b ∷ r) db = (raised multiple_results, db)

  -- `result.mappings().one()`
  abbrev pub one : List A → Action A
  one [] db = (raised no_result, db)
  one (a ∷ []) db = (ok a, db)
  one (a ∷ b ∷ r) db = (raised multiple_results, db)

  -- A statement that PostgreSQL may refuse; if it does, nothing is written.
  abbrev pub execute : Engine → Stmt → (Db → A × Db) → Action A
  execute eng s f db =
      let (a, db') = f db in
      elim (eng.fault s db) [ none ↦ (ok a, db') | some e ↦ (raised (dbapi e), db) ]

  -- The statement is refused with this error.
  abbrev pub refuse : DbError → Action A
  refuse e db = (raised (dbapi e), db)

  -- `async with atomic(session)`: a raise puts the database back to where the block began.
  unfoldable pub atomic : Action A → Action A
  atomic m db = let (r, db') = m db in elim r [ ok a ↦ (ok a, db') | raised e ↦ (raised e, db) ]

  -- `try: m; except Exception: handler; raise`
  abbrev pub on_error : Action A → Action (Unit {0}) → Action A
  on_error m handler db =
      let (r, db') = m db in
      elim r [ ok a ↦ (ok a, db') | raised x ↦ (handler >>= λ _ db''. (raised x, db'')) db' ]

  -- `try: m; except DBAPIError as e: handler(e)`
  abbrev pub except_dbapi : Action A → (DbError → Raised) → Action A
  except_dbapi m handler db =
      let (r, db') = m db in
      elim r [
        | ok a ↦ (ok a, db')
        | raised x ↦ (
          raised (elim x [
            | dbapi e ↦ handler e
            | app e ↦ app e
            | multiple_results ↦ multiple_results
            | no_result ↦ no_result
            | value_error ↦ value_error
          ]),
          db',
        )
      ]
