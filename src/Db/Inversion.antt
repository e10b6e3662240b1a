-- ===== src/Db/Inversion.antt =====
-- What a successful coroutine has done, step by step.
use realesatecrm.Base.{
  ◌≡◌, refl, ap, ◌⊎◌, inl, inr, Bool, false, Option, none, some, List, [], ◌∷◌, arith,
}
use realesatecrm.Core.Errors.{AppError, DbError, Raised, Result, ok, raised}
use realesatecrm.Db.Rows.{Db}
use realesatecrm.Db.Action.{
  Action, Stmt, Engine, ◌>>=◌, raise_if, or_raise, one_or_none, execute, atomic, except_dbapi,
}

-- A chain that returns has had its first part return.
pub >>=-eq-ok :
    {A B : Type 0} (m : Action A) (f : A → Action B) (db : Db) {b : B} {db'' : Db}
    → (m >>= f) db ≡ (ok b, db'')
    → (a : A) × (db' : Db) × (m db ≡ (ok a, db')) × (f a db' ≡ (ok b, db''))
>>=-eq-ok {A} {B} m f db {b} {db''} h = go (m db) refl h
  where
    go :
        (r : Result A × Db)
        → m db ≡ r
        → (let (x, db') = r in elim x [ ok a ↦ f a db' | raised e ↦ (raised e, db') ])
          ≡ (ok b, db'')
        → (a : A) × (db' : Db) × (m db ≡ (ok a, db')) × (f a db' ≡ (ok b, db''))
    go (ok a, db') e k = (a, db', e, k)
    go (raised x, db') e k = absurd (cc)

-- A chain whose first part returns goes on with what that returned.
pub >>=-ok :
    {A B : Type 0} (m : Action A) (f : A → Action B) {a : A} (db : Db) {db' : Db}
    → m db ≡ (ok a, db')
    → (m >>= f) db ≡ f a db'
>>=-ok {A} {B} m f db e =
    ap
      (λ (r : Result A × Db).
        let (x, d) = r in
        elim x as (λ _. Result B × Db) [ ok a ↦ f a d | raised y ↦ (raised y, d) ])
      e

-- The same, handed on to what uses it.
pub >>=-ok-elim :
    {A B C : Type 0} (m : Action A) (f : A → Action B) (db : Db) {b : B} {db'' : Db}
    → (m >>= f) db ≡ (ok b, db'')
    → ((a : A) (db' : Db) → m db ≡ (ok a, db') → f a db' ≡ (ok b, db'') → C)
    → C
>>=-ok-elim m f db h k = let (a, db', e, h') = >>=-eq-ok m f db h in k a db' e h'

pub raise_if-eq-ok :
    (c : Bool) (e : AppError) (db : Db) {u : Unit {0}} {db' : Db}
    → raise_if c e db ≡ (ok u, db')
    → (c ≡ false) × (db' ≡ db)
raise_if-eq-ok c e db h = ground arith

module _ {A : Type 0} where
  pub or_raise-eq-ok :
      (o : Option A) (e : AppError) (db : Db) {a : A} {db' : Db}
      → or_raise o e db ≡ (ok a, db')
      → (o ≡ some a) × (db' ≡ db)
  or_raise-eq-ok o e db h = ground arith

  pub one_or_none-eq-ok :
      (rows : List A) (db : Db) {o : Option A} {db' : Db}
      → one_or_none rows db ≡ (ok o, db')
      → (db' ≡ db) × (((o ≡ none) × (rows ≡ [])) ⊎ ((a : A) × (o ≡ some a) × (rows ≡ a ∷ [])))
  one_or_none-eq-ok [] db h = (cc, inl (cc, refl))
  one_or_none-eq-ok (a ∷ []) db h = (cc, inr (a, cc, refl))
  one_or_none-eq-ok (a ∷ b ∷ r) db h = absurd (cc)

  pub execute-eq-ok :
      (eng : Engine) (s : Stmt) (f : Db → A × Db) (db : Db) {a : A} {db' : Db}
      → execute eng s f db ≡ (ok a, db')
      → f db ≡ (a, db')
  execute-eq-ok eng s f db h = ground arith

  -- A block that raises has written nothing.
  pub atomic-raised :
      (m : Action A) (db : Db) {e : Raised} → (atomic m db).0 ≡ raised e → (atomic m db).1 ≡ db
  unfolding atomic
  atomic-raised m db h = ground arith

  pub atomic-eq-ok :
      (m : Action A) (db : Db) {a : A} {db' : Db} → atomic m db ≡ (ok a, db') → m db ≡ (ok a, db')
  unfolding atomic
  atomic-eq-ok m db h = ground arith

  pub except_dbapi-eq-ok :
      (m : Action A) (h : DbError → Raised) (db : Db) {a : A} {db' : Db}
      → except_dbapi m h db ≡ (ok a, db')
      → m db ≡ (ok a, db')
  except_dbapi-eq-ok m h db p = ground arith
