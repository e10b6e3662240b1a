-- ===== src/Contacts/Unique.antt =====
-- A tenant has one live contact for a telephone number, whatever requests race to create it.
use realesatecrm.Base.{
  ℕ, Text, same_text-eq, ◌≤◌, ◌≡◌, refl, sym, subst, ◌∙◌, inl, inr, String, Bool, not, ◌||◌, Option,
  none, some, List, [], ◌∷◌, ==_iff, arith, length, select, Bool-cases,
}
use realesatecrm.Core.Errors.{AppError, DbError, Result, ok, raised, dbapi}
use realesatecrm.Db.Rows.{Db, Customer}
use realesatecrm.Db.Action.{
  Action, Stmt, Engine, ◌>>=◌, pure, raise_if, or_raise, one_or_none, execute,
}
use realesatecrm.Db.Reads.{Reads, >>=-Reads}
use realesatecrm.Events.{publish_event}
use realesatecrm.Contacts.Phone.{normalize_phone}
use realesatecrm.Contacts.Resolver.{
  given, is_given, ContactDefaults, Others, meanwhile, has_phone, checked_phone, contact_phone,
  find_phone, or_else, find_email, find_external_id, find, contact_row, insert_free, create,
  created_or_winner, create_contact, found_or_created, resolve_contact,
}

-- At most one live customer of each tenant has each number.
unfoldable pub OneContact : Db → Type 0
OneContact db = (t : ℕ) (phone : Text) → length (select (has_phone t phone) db.customers) ≤ 1

-- It keeps a property of the database, whether it returns or raises.
unfoldable pub Preserves : {A : Type 0} → (Db → Type 0) → Action A → Type 0
Preserves Q m = (db : Db) → Q db → Q (m db).1

module _ {A B : Type 0} (Q : Db → Type 0) (m : Action A) (f : A → Action B) where
  pub >>=-Preserves : Preserves Q m → ((a : A) → Preserves Q (f a)) → Preserves Q (m >>= f)
  unfolding Preserves
  >>=-Preserves k l db q = go (m db) refl
    where
      go :
          (r : Result A × Db)
          → m db ≡ r
          → Q
              (let (x, db') = r in
                elim x as (λ _. Result B × Db) [ ok a ↦ f a db' | raised e ↦ (raised e, db') ]).1
      go (ok a, db') e = l a db' (subst (λ (x : Result A × Db). Q x.1) e (k db q))
      go (raised x, db') e = subst (λ (x : Result A × Db). Q x.1) e (k db q)

module _ (Q : Db → Type 0) where
  pub or_raise-Preserves : {A : Type 0} (o : Option A) (e : AppError) → Preserves Q (or_raise o e)
  unfolding Preserves
  or_raise-Preserves none e db q = q
  or_raise-Preserves (some a) e db q = q

  pub raise_if-Preserves : (c : Bool) (e : AppError) → Preserves Q (raise_if c e)
  unfolding Preserves
  raise_if-Preserves c e db q = q

  pub one_or_none-Preserves : {A : Type 0} (rows : List A) → Preserves Q (one_or_none rows)
  unfolding Preserves
  one_or_none-Preserves [] db q = q
  one_or_none-Preserves (a ∷ []) db q = q
  one_or_none-Preserves (a ∷ b ∷ r) db q = q

-- The look-ups write nothing.
find_phone-same : (t : ℕ) (phone : Option Text) (db : Db) → (find_phone t phone db).1 ≡ db
unfolding find_phone
find_phone-same t none db = refl
find_phone-same t (some p) db = same_rows (select (has_phone t p) db.customers)
  where
    same_rows : (rows : List Customer) → (one_or_none rows db).1 ≡ db
    same_rows [] = refl
    same_rows (a ∷ []) = refl
    same_rows (a ∷ b ∷ r) = refl

or_else-Reads : (o : Option Customer) (m : Action (Option Customer)) → Reads m → Reads (or_else o m)
unfolding Reads
or_else-Reads none m k db = k db
or_else-Reads (some c) m k db = refl

pub contact_phone-Reads : (phone : Option Text) → Reads (contact_phone phone)
unfolding Reads contact_phone
contact_phone-Reads none db = refl
contact_phone-Reads (some p) db = checked (normalize_phone p)
  where
    checked : (r : Result Text) → (checked_phone r db).1 ≡ db
    checked (ok n) = refl
    checked (raised e) = refl

module _ (fold : Text → Text) (t : ℕ) where
  find_email-Reads : (email : Option Text) → Reads (find_email fold t email)
  unfolding Reads find_email
  find_email-Reads none db = refl
  find_email-Reads (some e) db = refl

  find_external_id-Reads : (external_id : Option Text) → Reads (find_external_id fold t external_id)
  unfolding Reads find_external_id
  find_external_id-Reads none db = refl
  find_external_id-Reads (some e) db = refl

  find_phone-Reads : (phone : Option Text) → Reads (find_phone t phone)
  unfolding Reads
  find_phone-Reads phone db = find_phone-same t phone db

  pub find-Reads :
      (phone email external_id : Option Text) → Reads (find fold t phone email external_id)
  unfolding find
  find-Reads phone email external_id =
      >>=-Reads (find_phone t phone) _ (find_phone-Reads phone) λ hit. or_else-Reads hit _ (
        >>=-Reads (find_email fold t email) _ (find_email-Reads email)
          λ by_email. or_else-Reads by_email _ (find_external_id-Reads external_id))

pub Reads-Preserves : {A : Type 0} (Q : Db → Type 0) (m : Action A) → Reads m → Preserves Q m
unfolding Reads Preserves
Reads-Preserves Q m k db q = subst Q (sym (k db)) q

pub execute-Preserves :
    {A : Type 0} (Q : Db → Type 0) (eng : Engine) (s : Stmt) (f : Db → A × Db)
    → ((db : Db) → Q db → Q (f db).1)
    → Preserves Q (execute eng s f)
unfolding Preserves
execute-Preserves {A} Q eng s f k db q = go (eng.fault s db)
  where
    go :
        (o : Option DbError)
        → Q
            (elim o as (λ _. Result A × Db) [
              | none ↦ (ok (f db).0, (f db).1)
              | some e ↦ (raised (dbapi e), db)
            ]).1
    go none = k db q
    go (some e) = q

-- The INSERT adds a row only where the number is free.
free_row-OneContact :
    (t : ℕ) (phone : Text) (row : Customer) (db : Db)
    → row.tenant_id ≡ t
    → row.phone ≡ phone
    → select (has_phone t phone) db.customers ≡ []
    → OneContact db
    → OneContact (record db { customers = row ∷ db.customers })
unfolding OneContact
free_row-OneContact t phone row db own number free one t' phone' =
    elim (Bool-cases (has_phone t' phone' row)) [
      | inl e ↦
          let mine : row.tenant_id ≡ t' = (==_iff row.tenant_id t').0 (ground (arith, e)) in
          let its : row.phone ≡ phone' = same_text-eq row.phone phone' (ground (arith, e)) in
          let none_other : select (has_phone t' phone') db.customers ≡ [] =
            subst (λ (u : ℕ). select (has_phone u phone') db.customers ≡ []) (sym own ∙ mine)
              (subst (λ (p : Text). select (has_phone t p) db.customers ≡ []) (sym number ∙ its)
                free) in
          rw e (rw none_other (omega arith))
      | inr e ↦ rw e (one t' phone')
    ]

create-OneContact :
    (eng : Engine) (t : ℕ) (phone : Text) (email external_id : Option Text) (d : ContactDefaults)
    → Preserves OneContact (create eng t phone email external_id d)
unfolding create
create-OneContact eng t phone email external_id d =
    execute-Preserves OneContact eng Stmt.insert_customer _
      λ db one. inserted db one (select (has_phone t phone) db.customers) refl
  where
    inserted :
        (db : Db)
        → OneContact db
        → (rows : List Customer) → select (has_phone t phone) db.customers ≡ rows
        → OneContact (insert_free rows (contact_row eng t phone email external_id d db) db).1
    inserted db one [] free =
        free_row-OneContact t phone (contact_row eng t phone email external_id d db) db refl refl
          free one
    inserted db one (c ∷ cs) taken = one

publish_event-OneContact :
    (eng : Engine) (t : ℕ) (event_type : String) (contact lead : Option ℕ)
    → Preserves OneContact (publish_event eng t event_type contact lead)
unfolding publish_event OneContact
publish_event-OneContact eng t event_type contact lead =
    execute-Preserves OneContact eng Stmt.insert_event _ λ db one. one

pub meanwhile-Preserves :
    (Q : Db → Type 0) (f : Db → Db) → ((db : Db) → Q db → Q (f db)) → Preserves Q (meanwhile f)
unfolding Preserves
meanwhile-Preserves Q f k db q = k db q

pub pure-Preserves : {A : Type 0} (Q : Db → Type 0) (a : A) → Preserves Q (pure a)
unfolding Preserves
pure-Preserves Q a db q = q

module _ (Q : Db → Type 0) (fold : Text → Text) (eng : Engine) (others : Others) (t : ℕ)
    (before : (db : Db) → Q db → Q (others.before_insert db))
    (later : (db : Db) → Q db → Q (others.before_refetch db))
    (inserts : (phone : Text) (email external_id : Option Text) (d : ContactDefaults)
      → Preserves Q (create eng t phone email external_id d))
    (publishes : (event_type : String) (contact lead : Option ℕ)
      → Preserves Q (publish_event eng t event_type contact lead)) where
  created_or_winner-Preserves :
      (phone : Text) (created : Option Customer)
      → Preserves Q (created_or_winner fold eng others t phone created)
  unfolding created_or_winner
  created_or_winner-Preserves phone (some c) =
      >>=-Preserves Q (publish_event eng t "contact_created" (some c.id) none) _
        (publishes "contact_created" (some c.id) none) λ _. pure-Preserves Q c
  created_or_winner-Preserves phone none =
      >>=-Preserves Q (meanwhile others.before_refetch) _
        (meanwhile-Preserves Q others.before_refetch later)
        λ _.
          >>=-Preserves Q (find fold t (some phone) none none) _
            (Reads-Preserves Q _ (find-Reads fold t (some phone) none none))
            λ winner. or_raise-Preserves Q winner (AppError.conflict "CUSTOMER_CREATE_CONFLICT")

  create_contact-Preserves :
      (phone email external_id : Option Text) (d : ContactDefaults)
      → Preserves Q (create_contact fold eng others t phone email external_id d)
  unfolding create_contact
  create_contact-Preserves phone email external_id d =
      >>=-Preserves Q (or_raise phone (AppError.validation "CONTACT_PHONE_REQUIRED")) _
        (or_raise-Preserves Q phone _)
        λ number.
          >>=-Preserves Q (meanwhile others.before_insert) _
            (meanwhile-Preserves Q others.before_insert before)
            λ _.
              >>=-Preserves Q (create eng t number email external_id d) _
                (inserts number email external_id d)
                λ created. created_or_winner-Preserves number created

  found_or_created-Preserves :
      (existing : Option Customer) (m : Action Customer)
      → Preserves Q m
      → Preserves Q (found_or_created existing m)
  unfolding found_or_created
  found_or_created-Preserves none m k = k
  found_or_created-Preserves (some c) m k = pure-Preserves Q c

  -- Resolving a contact keeps what its writes and the requests of others keep.
  pub resolve_contact-Preserves :
      (phone email external_id : Option Text) (d : ContactDefaults)
      → Preserves Q (resolve_contact fold eng others t phone email external_id d)
  unfolding resolve_contact
  resolve_contact-Preserves phone email external_id d =
      >>=-Preserves Q (contact_phone (given phone)) _
        (Reads-Preserves Q _ (contact_phone-Reads (given phone)))
        λ number.
          let nothing =
            not (is_given number || is_given (given email) || is_given (given external_id)) in
          >>=-Preserves Q (raise_if nothing (AppError.validation "CONTACT_IDENTIFIER_REQUIRED")) _
            (raise_if-Preserves Q nothing (AppError.validation "CONTACT_IDENTIFIER_REQUIRED"))
            λ _.
              >>=-Preserves Q (find fold t number (given email) (given external_id)) _
                (Reads-Preserves Q _ (find-Reads fold t number (given email) (given external_id)))
                λ existing.
                  let creation =
                    create_contact fold eng others t number (given email) (given external_id) d in
                  found_or_created-Preserves existing creation
                    (create_contact-Preserves number (given email) (given external_id) d)

-- Resolving a contact, whatever it returns or raises, and whatever other requests commit meanwhile,
-- leaves at most one live customer of each tenant with each number, if that was so and the other
-- requests keep it so.
pub resolve_contact-OneContact :
    (fold : Text → Text) (eng : Engine) (others : Others) (t : ℕ)
    → ((db : Db) → OneContact db → OneContact (others.before_insert db))
    → ((db : Db) → OneContact db → OneContact (others.before_refetch db))
    → (phone email external_id : Option Text) (d : ContactDefaults) (db : Db) → OneContact db
    → OneContact (resolve_contact fold eng others t phone email external_id d db).1
unfolding Preserves
resolve_contact-OneContact fold eng others t before later phone email external_id d db one =
    resolve_contact-Preserves OneContact fold eng others t before later (create-OneContact eng t)
      (publish_event-OneContact eng t) phone email external_id d db one
