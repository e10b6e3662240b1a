-- ===== src/Contacts/Again.antt =====
-- Resolving the same contact again finds it, and writes nothing.
use realesatecrm.Base.{
  ℕ, Text, String, same_text_refl, ◌≡◌, refl, sym, subst, ap, ◌∙◌, Bool, true, false, not, ◌||◌,
  Option, none, some, List, [], ◌∷◌, ==_iff, arith, select,
}
use realesatecrm.Core.Errors.{AppError, Result, ok, raised}
use realesatecrm.Db.Rows.{Db, Customer}
use realesatecrm.Db.Action.{
  Action, Stmt, Engine, ◌>>=◌, ◌>>◌, pure, raise_if, or_raise, one_or_none,
}
use realesatecrm.Db.Inversion.{>>=-eq-ok, >>=-ok, raise_if-eq-ok, or_raise-eq-ok, execute-eq-ok}
use realesatecrm.Events.{publish_event}
use realesatecrm.Contacts.Phone.{normalize_phone}
use realesatecrm.Contacts.Resolver.{
  given, is_given, ContactDefaults, Others, has_phone, checked_phone, contact_phone, find_phone,
  or_else, find_email, find_external_id, find, contact_row, insert_free, create, created_or_winner,
  create_contact, found_or_created, resolve_contact,
}
use realesatecrm.Db.Reads.{Reads}
use realesatecrm.Contacts.Unique.{find-Reads}

contact_phone-any :
    (phone n : Option Text) (db db1 db' : Db)
    → contact_phone phone db ≡ (ok n, db1)
    → contact_phone phone db' ≡ (ok n, db')
unfolding contact_phone
contact_phone-any none n db db1 db' h = ground (arith, h)
contact_phone-any (some p) n db db1 db' h = checked (normalize_phone p) h
  where
    checked :
        (r : Result Text) → checked_phone r db ≡ (ok n, db1) → checked_phone r db' ≡ (ok n, db')
    checked (ok m) k = ground (arith, k)
    checked (raised e) k = absurd (ground (arith, k))

module _ (fold : Text → Text) (t : ℕ) (n : Text) where
  found_by_phone :
      (email external_id : Option Text) (c : Customer) (db : Db)
      → find_phone t (some n) db ≡ (ok (some c), db)
      → find fold t (some n) email external_id db ≡ (ok (some c), db)
  unfolding find
  found_by_phone email external_id c db e =
      >>=-ok (find_phone t (some n))
        (λ by_phone. or_else by_phone (
          find_email fold t email >>= λ by_email.
          or_else by_email (find_external_id fold t external_id)))
        db e

  selected-found :
      (c : Customer) (db : Db)
      → select (has_phone t n) db.customers ≡ c ∷ []
      → find_phone t (some n) db ≡ (ok (some c), db)
  unfolding find_phone
  selected-found c db e = ap (λ (rows : List Customer). one_or_none rows db) e

  -- Without other identifiers, what is found is found by the number.
  found_alone :
      (c : Customer) (db db' : Db)
      → find fold t (some n) none none db ≡ (ok (some c), db')
      → find_phone t (some n) db' ≡ (ok (some c), db')
  unfolding find find_phone find_email find_external_id
  found_alone c db db' e = rows (select (has_phone t n) db.customers) refl e
    where
      rows :
          (l : List Customer)
          → select (has_phone t n) db.customers ≡ l
          → (one_or_none l >>= λ by_phone.
                or_else by_phone (pure none >>= λ by_email. or_else by_email (pure none)))
              db
            ≡ (ok (some c), db')
          → one_or_none (select (has_phone t n) db'.customers) db' ≡ (ok (some c), db')
      rows [] s k = absurd (ground (arith, k))
      rows (a ∷ []) s k =
          let same : db ≡ db' = ap (λ (r : Result (Option Customer) × Db). r.1) k in
          subst (λ (d : Db). one_or_none (select (has_phone t n) d.customers) d ≡ (ok (some c), d))
            same (ap (λ (l : List Customer). one_or_none l db) s ∙ ground (arith, k))
      rows (a ∷ b ∷ l) s k = absurd (ground (arith, k))

module _ (eng : Engine) (t : ℕ) (n : Text) (email external_id : Option Text)
    (d : ContactDefaults) where
  own_phone : (db : Db) → has_phone t n (contact_row eng t n email external_id d db) ≡ true
  own_phone db = ground (arith, same_text_refl n, ==_iff t t)

  create-selected :
      (row : Customer) (db db' : Db)
      → create eng t n email external_id d db ≡ (ok (some row), db')
      → select (has_phone t n) db'.customers ≡ row ∷ []
  unfolding create
  create-selected row db db' h = inserted (select (has_phone t n) db.customers) refl (
      execute-eq-ok eng Stmt.insert_customer
        (λ x.
          insert_free (select (has_phone t n) x.customers)
            (contact_row eng t n email external_id d x) x)
        db h)
    where
      inserted :
          (rows : List Customer)
          → select (has_phone t n) db.customers ≡ rows
          → insert_free rows (contact_row eng t n email external_id d db) db ≡ (some row, db')
          → select (has_phone t n) db'.customers ≡ row ∷ []
      inserted [] free k =
          let new = contact_row eng t n email external_id d db in
          let same : record db { customers = new ∷ db.customers } ≡ db' =
            ap (λ (r : Option Customer × Db). r.1) k in
          let its : new ≡ row = ground (arith, k) in
          subst (λ (x : Db). select (has_phone t n) x.customers ≡ row ∷ []) same
            (rw (own_phone db) (rw free (ap (λ (r : Customer). r ∷ []) its)))
      inserted (c ∷ cs) taken k = absurd (ground (arith, k))

publish_event-customers :
    (eng : Engine) (t : ℕ) (event_type : String) (contact lead : Option ℕ) (db db' : Db)
    (u : Unit {0})
    → publish_event eng t event_type contact lead db ≡ (ok u, db')
    → db'.customers ≡ db.customers
unfolding publish_event
publish_event-customers eng t event_type contact lead db db' u h = ground (arith, h)

module _ (fold : Text → Text) (eng : Engine) (others : Others) (t : ℕ) where
  created-found :
      (n : Text) (created : Option Customer) (c : Customer) (db db' : Db)
      → ((row : Customer) → created ≡ some row → select (has_phone t n) db.customers ≡ row ∷ [])
      → created_or_winner fold eng others t n created db ≡ (ok c, db')
      → find_phone t (some n) db' ≡ (ok (some c), db')
  unfolding created_or_winner
  created-found n (some row) c db db' own h =
      let (u, db1, e1, e2) =
        >>=-eq-ok (publish_event eng t "contact_created" (some row.id) none) (λ _. pure row) db h in
      let kept = publish_event-customers eng t "contact_created" (some row.id) none db db1 u e1 in
      let same : db1 ≡ db' = ap (λ (r : Result Customer × Db). r.1) e2 in
      let its : row ≡ c = ground (arith, e2) in
      selected-found fold t n c db' (
        subst (λ (x : Db). select (has_phone t n) x.customers ≡ c ∷ []) same
          (ap (λ (l : List Customer). select (has_phone t n) l) kept
            ∙ (own row refl ∙ ap (λ (r : Customer). r ∷ []) its)))
  created-found n none c db db' own h =
      let (winner, db1, e1, e2) =
        >>=-eq-ok (find fold t (some n) none none)
          (λ winner. or_raise winner (AppError.conflict "CUSTOMER_CREATE_CONFLICT"))
          (others.before_refetch db) h in
      let (won, same) =
        or_raise-eq-ok winner (AppError.conflict "CUSTOMER_CREATE_CONFLICT") db1 e2 in
      let e3 : find fold t (some n) none none (others.before_refetch db) ≡ (ok (some c), db1) =
        subst
          (λ (w : Option Customer).
            find fold t (some n) none none (others.before_refetch db) ≡ (ok w, db1))
          won e1 in
      subst (λ (x : Db). find_phone t (some n) x ≡ (ok (some c), x)) (sym same)
        (found_alone fold t n c (others.before_refetch db) db1 e3)

  create_contact-found :
      (number email external_id : Option Text) (d : ContactDefaults) (c : Customer) (db db' : Db)
      → create_contact fold eng others t number email external_id d db ≡ (ok c, db')
      → find fold t number email external_id db' ≡ (ok (some c), db')
  unfolding create_contact
  create_contact-found none email external_id d c db db' h = absurd (ground (arith, h))
  create_contact-found (some n) email external_id d c db db' h =
      let (created, db1, e1, e2) =
        >>=-eq-ok (create eng t n email external_id d) (created_or_winner fold eng others t n)
          (others.before_insert db) h in
      found_by_phone fold t n email external_id c db' (
        created-found n created c db1 db'
          (λ row its.
            create-selected eng t n email external_id d row (others.before_insert db) db1 (
              subst
                (λ (o : Option Customer).
                  create eng t n email external_id d (others.before_insert db) ≡ (ok o, db1))
                its e1))
          e2)

module _ (fold : Text → Text) (eng : Engine) (others : Others) (t : ℕ)
    (phone email external_id : Option Text) where
  abbrev pub lacks : Option Text → Bool
  lacks number = not (is_given number || is_given (given email) || is_given (given external_id))

  abbrev settle : ContactDefaults → Option Text → Option Customer → Action Customer
  settle d number existing =
      found_or_created existing
        (create_contact fold eng others t number (given email) (given external_id) d)

  abbrev after_guard : ContactDefaults → Option Text → Action Customer
  after_guard d number =
      find fold t number (given email) (given external_id) >>= λ existing. settle d number existing

  abbrev after_phone : ContactDefaults → Option Text → Action Customer
  after_phone d number =
      raise_if (lacks number) (AppError.validation "CONTACT_IDENTIFIER_REQUIRED")
      >> after_guard d number

  settled-found :
      (d : ContactDefaults) (number : Option Text) (existing : Option Customer) (c : Customer)
      (db db' : Db)
      → find fold t number (given email) (given external_id) db ≡ (ok existing, db)
      → settle d number existing db ≡ (ok c, db')
      → find fold t number (given email) (given external_id) db' ≡ (ok (some c), db')
  unfolding found_or_created
  settled-found d number none c db db' e h =
      create_contact-found fold eng others t number (given email) (given external_id) d c db db' h
  settled-found d number (some b) c db db' e h =
      let same : db ≡ db' = ap (λ (r : Result Customer × Db). r.1) h in
      let its : b ≡ c = ground (arith, h) in
      subst (λ (x : Db). find fold t number (given email) (given external_id) x ≡ (ok (some c), x))
        same
        (subst
          (λ (a : Customer).
            find fold t number (given email) (given external_id) db ≡ (ok (some a), db))
          its e)

  -- What a resolution that returned has found or created is found by every later one.
  pub resolved-found :
      (d : ContactDefaults) (c : Customer) (db db' : Db)
      → resolve_contact fold eng others t phone email external_id d db ≡ (ok c, db')
      → (number : Option Text) × (contact_phone (given phone) db' ≡ (ok number, db'))
        × (lacks number ≡ false)
        × (find fold t number (given email) (given external_id) db' ≡ (ok (some c), db'))
  unfolding resolve_contact Reads
  resolved-found d c db db' h =
      let (number, db1, e1, h1) = >>=-eq-ok (contact_phone (given phone)) (after_phone d) db h in
      let (u, db2, e2, h2) =
        >>=-eq-ok (raise_if (lacks number) (AppError.validation "CONTACT_IDENTIFIER_REQUIRED"))
          (λ _. after_guard d number) db1 h1 in
      let (enough, _) =
        raise_if-eq-ok (lacks number) (AppError.validation "CONTACT_IDENTIFIER_REQUIRED") db1 e2 in
      let (existing, db3, e3, h3) =
        >>=-eq-ok (find fold t number (given email) (given external_id)) (settle d number) db2 h2 in
      (
        number,
        contact_phone-any (given phone) number db db1 db' e1,
        enough,
        settled-found d number existing c db3 db' (read_again number existing db2 db3 e3) h3,
      )
    where
      read_again :
          (number : Option Text) (existing : Option Customer) (x y : Db)
          → find fold t number (given email) (given external_id) x ≡ (ok existing, y)
          → find fold t number (given email) (given external_id) y ≡ (ok existing, y)
      read_again number existing x y e =
          let q = find fold t number (given email) (given external_id) in
          let same : x ≡ y =
            sym (find-Reads fold t number (given email) (given external_id) x)
            ∙ ap (λ (r : Result (Option Customer) × Db). r.1) e in
          subst (λ (z : Db). q z ≡ (ok existing, y)) same e

-- A contact that has been resolved is resolved to the same row again, by the same tenant, number, email and
-- external id, and nothing is written then, whatever the defaults, the time and the requests of
-- others in between the statements are.
pub resolve_contact-again :
    (fold : Text → Text) (eng later : Engine) (others rest : Others) (t : ℕ)
    (phone email external_id : Option Text) (d d' : ContactDefaults) (c : Customer) (db db' : Db)
    → resolve_contact fold eng others t phone email external_id d db ≡ (ok c, db')
    → resolve_contact fold later rest t phone email external_id d' db' ≡ (ok c, db')
unfolding resolve_contact found_or_created
resolve_contact-again fold eng later others rest t phone email external_id d d' c db db' h =
    let (number, e1, enough, e2) =
      resolved-found fold eng others t phone email external_id d c db db' h in
    let guard : raise_if (lacks fold later rest t phone email external_id number)
          (AppError.validation "CONTACT_IDENTIFIER_REQUIRED") db'
        ≡ (ok tt, db') =
      rw enough refl in
    >>=-ok (contact_phone (given phone)) (after_phone fold later rest t phone email external_id d')
      db' e1
    ∙ (>>=-ok
          (raise_if (lacks fold later rest t phone email external_id number)
            (AppError.validation "CONTACT_IDENTIFIER_REQUIRED"))
          (λ _. after_guard fold later rest t phone email external_id d' number) db' guard
        ∙ >>=-ok (find fold t number (given email) (given external_id))
            (settle fold later rest t phone email external_id d' number) db' e2)
