-- ===== src/Db/Reads.antt =====
-- Coroutines that only read, and what a chain leaves behind that begins with one or with a block
-- under `atomic`.
use realesatecrm.Base.{
  ◌≡◌, refl, ap, sym, ◌∙◌, subst, Bool, Option, none, some, List, [], ◌∷◌, arith,
}
use realesatecrm.Core.Errors.{AppError, DbError, Raised, Result, ok, raised}
use realesatecrm.Db.Rows.{Db}
use realesatecrm.Db.Action.{
  Action, ◌>>=◌, gets, pure, raise_if, or_raise, one_or_none, atomic, except_dbapi,
}

-- It leaves the database as it is.
unfoldable pub Reads : {A : Type 0} → Action A → Type 0
Reads m = (db : Db) → (m db).1 ≡ db

pub >>=-Reads :
    {A B : Type 0} (m : Action A) (f : A → Action B)
    → Reads m
    → ((a : A) → Reads (f a))
    → Reads (m >>= f)
unfolding Reads
>>=-Reads {A} {B} m f k l db = go (m db) refl
  where
    go :
        (r : Result A × Db)
        → m db ≡ r
        → (let (x, db') = r in
            elim x as (λ _. Result B × Db) [ ok a ↦ f a db' | raised e ↦ (raised e, db') ]).1
          ≡ db
    go (ok a, db') e = l a db' ∙ (sym (ap (λ (x : Result A × Db). x.1) e) ∙ k db)
    go (raised x, db') e = sym (ap (λ (x : Result A × Db). x.1) e) ∙ k db

module _ {A : Type 0} where
  pub gets-Reads : (f : Db → A) → Reads (gets f)
  unfolding Reads
  gets-Reads f db = refl

  pub pure-Reads : (a : A) → Reads (pure a)
  unfolding Reads
  pure-Reads a db = refl

  pub or_raise-Reads : (o : Option A) (e : AppError) → Reads (or_raise o e)
  unfolding Reads
  or_raise-Reads none e db = refl
  or_raise-Reads (some a) e db = refl

  pub one_or_none-Reads : (rows : List A) → Reads (one_or_none rows)
  unfolding Reads
  one_or_none-Reads [] db = refl
  one_or_none-Reads (a ∷ []) db = refl
  one_or_none-Reads (a ∷ b ∷ r) db = refl

  -- The handler of an error of the database writes nothing.
  pub except_dbapi-leaves :
      (m : Action A) (handler : DbError → Raised) (db : Db)
      → (except_dbapi m handler db).1 ≡ (m db).1
  except_dbapi-leaves m handler db = ground arith

pub raise_if-Reads : (c : Bool) (e : AppError) → Reads (raise_if c e)
unfolding Reads
raise_if-Reads c e db = refl

-- From where Q holds it leaves a database that R relates to the one before, whether it returns or
-- raises.
unfoldable pub BringsFrom : {A : Type 0} → (Db → Type 0) → (Db → Db → Type 0) → Action A → Type 0
BringsFrom Q R m = (db : Db) → Q db → R db (m db).1

module _ (R : Db → Db → Type 0) (same : (db : Db) → R db db) (Q : Db → Type 0) where
  pub Reads-BringsFrom : {A : Type 0} (m : Action A) → Reads m → BringsFrom Q R m
  unfolding Reads BringsFrom
  Reads-BringsFrom m k db q = subst (R db) (sym (k db)) (same db)

  -- A chain that begins with a look at the database.
  pub look->>= :
      {A B : Type 0} (m : Action A) (f : A → Action B)
      → Reads m
      → ((a : A) → BringsFrom (λ db. Q db × (m db ≡ (ok a, db))) R (f a))
      → BringsFrom Q R (m >>= f)
  unfolding Reads BringsFrom
  look->>= {A} {B} m f k rest db q = go (m db) refl
    where
      go :
          (r : Result A × Db)
          → m db ≡ r
          → R db
              (let (x, db') = r in
                elim x as (λ _. Result B × Db) [ ok a ↦ f a db' | raised e ↦ (raised e, db') ]).1
      go (ok a, db') e =
          let back : db' ≡ db = sym (ap (λ (x : Result A × Db). x.1) e) ∙ k db in
          let found : m db ≡ (ok a, db) = e ∙ ap (λ (d : Db). (ok a, d)) back in
          subst (λ d. R db (f a d).1) (sym back) (rest a db (q, found))
      go (raised x, db') e =
          subst (R db) (sym (sym (ap (λ (y : Result A × Db). y.1) e) ∙ k db)) (same db)

  -- A chain that ends with looks at the database.
  pub BringsFrom->>= :
      {A B : Type 0} (m : Action A) (f : A → Action B)
      → BringsFrom Q R m
      → ((a : A) → Reads (f a))
      → BringsFrom Q R (m >>= f)
  unfolding Reads BringsFrom
  BringsFrom->>= {A} {B} m f p rest db q = go (m db) refl
    where
      go :
          (r : Result A × Db)
          → m db ≡ r
          → R db
              (let (x, db') = r in
                elim x as (λ _. Result B × Db) [ ok a ↦ f a db' | raised e ↦ (raised e, db') ]).1
      go (ok a, db') e =
          subst (R db) (sym (rest a db'))
            (subst (R db) (ap (λ (y : Result A × Db). y.1) e) (p db q))
      go (raised x, db') e = subst (R db) (ap (λ (y : Result A × Db). y.1) e) (p db q)

  -- A block under `atomic` leaves what it began with, unless it returns.
  pub atomic-BringsFrom :
      {A : Type 0} (m : Action A)
      → ((a : A) (db db' : Db) → Q db → m db ≡ (ok a, db') → R db db')
      → BringsFrom Q R (atomic m)
  unfolding atomic BringsFrom
  atomic-BringsFrom {A} m done db q = go (m db) refl
    where
      go :
          (r : Result A × Db)
          → m db ≡ r
          → R db
              (let (x, db') = r in
                elim x as (λ _. Result A × Db) [ ok a ↦ (ok a, db') | raised e ↦ (raised e, db) ]).1
      go (ok a, db') e = done a db db' q e
      go (raised x, db') e = same db

  pub except_dbapi-BringsFrom :
      {A : Type 0} (m : Action A) (handler : DbError → Raised)
      → BringsFrom Q R m
      → BringsFrom Q R (except_dbapi m handler)
  unfolding BringsFrom
  except_dbapi-BringsFrom m handler k db q =
      subst (R db) (sym (except_dbapi-leaves m handler db)) (k db q)

-- What is never reached leaves anything.
pub never-BringsFrom :
    {A : Type 0} (R : Db → Db → Type 0) (Q : Db → Type 0) (m : Action A)
    → ((db : Db) → Q db → ⊥)
    → BringsFrom Q R m
unfolding BringsFrom
never-BringsFrom R Q m k db q = absurd (k db q)
