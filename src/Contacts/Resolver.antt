-- ===== src/Contacts/Resolver.antt =====
-- backend/app/customers/resolver.py, class ContactResolver: the find-or-create of a contact. Free-form
-- metadata is left out but for the external id.
use realesatecrm.Base.{
  ℕ, Text, Bool, true, false, not, ◌&&◌, ◌||◌, Option, none, some, List, [], ◌∷◌, ◌==◌, leb,
  if◌then◌else◌, select, codes, same_text,
}
use realesatecrm.Core.Errors.{
  AppError, Raised, Result, ok, raised, app, dbapi, multiple_results, no_result, value_error,
}
use realesatecrm.Db.Rows.{Db, Customer}
use realesatecrm.Db.Action.{
  Action, Stmt, Engine, ◌>>=◌, ◌>>◌, pure, gets, raise_if, or_raise, one_or_none, execute,
}
use realesatecrm.Db.Table.{is_null, coalesce}
use realesatecrm.Events.{publish_event}
use realesatecrm.Contacts.Phone.{normalize_phone}

-- `if phone:`, `if email:`, `if external_id:`
abbrev pub given : Option Text → Option Text
given none = none
given (some []) = none
given (some (c ∷ s)) = some (c ∷ s)

abbrev pub is_given : Option Text → Bool
is_given none = false
is_given (some s) = true

-- The keys of `defaults` that name columns.
pub record ContactDefaults : Type 0 where
  pub full_name : Option Text
  pub email : Option Text
  pub lead_source_id : Option ℕ
  pub preferred_language : Option Text
  pub whatsapp_opted_in : Option Bool

-- What other requests commit while this one is between its look-up and its INSERT, and between the
-- INSERT and the second look-up.
pub record Others : Type 0 where
  pub before_insert : Db → Db
  pub before_refetch : Db → Db

abbrev pub meanwhile : (Db → Db) → Action (Unit {0})
meanwhile f db = (ok tt, f db)

abbrev pub or_text : Option Text → Option Text → Option Text
or_text none b = b
or_text (some a) b = some a

abbrev pub has_phone : ℕ → Text → Customer → Bool
has_phone t phone c = c.tenant_id == t && same_text c.phone phone && is_null c.deleted_at

abbrev pub phone_error : Raised → Raised
phone_error value_error = app (AppError.validation "INVALID_PHONE_NUMBER")
phone_error (app e) = app e
phone_error (dbapi e) = dbapi e
phone_error multiple_results = multiple_results
phone_error no_result = no_result

abbrev pub checked_phone : Result Text → Action (Option Text)
checked_phone (ok n) = pure (some n)
checked_phone (raised e) = λ db. (raised (phone_error e), db)

-- The number in its normal form, if one is given.
unfoldable pub contact_phone : Option Text → Action (Option Text)
contact_phone none = pure none
contact_phone (some phone) = checked_phone (normalize_phone phone)

-- `ORDER BY created_at ASC LIMIT 1`
abbrev pub earlier : Customer → Option Customer → Option Customer
earlier c none = some c
earlier c (some b) = if leb c.created_at b.created_at then some c else some b

abbrev pub oldest : List Customer → Option Customer
oldest [] = none
oldest (c ∷ rest) = earlier c (oldest rest)

unfoldable pub find_phone : ℕ → Option Text → Action (Option Customer)
find_phone t none = pure none
find_phone t (some phone) = do
  rows ← gets (λ db. select (has_phone t phone) db.customers)
  one_or_none rows

abbrev pub or_else : Option Customer → Action (Option Customer) → Action (Option Customer)
or_else none next = next
or_else (some c) next = pure (some c)

-- `ON CONFLICT (tenant_id, phone) WHERE deleted_at IS NULL DO NOTHING`
abbrev pub insert_free : List Customer → Customer → Db → Option Customer × Db
insert_free [] row db = (some row, record db { customers = row ∷ db.customers })
insert_free (c ∷ cs) row db = (none, db)

module _ (eng : Engine) where
  abbrev pub contact_row : ℕ → Text → Option Text → Option Text → ContactDefaults → Db → Customer
  contact_row t phone email external_id d db = record {
    id = eng.new_id Stmt.insert_customer db;
    tenant_id = t;
    full_name = coalesce (given d.full_name) phone;
    phone = phone;
    email = or_text email d.email;
    external_id = external_id;
    lead_source_id = d.lead_source_id;
    preferred_language = coalesce d.preferred_language (codes "hi");
    whatsapp_opted_in = coalesce d.whatsapp_opted_in false;
    do_not_call = false;
    created_at = eng.now;
    deleted_at = none;
  }

  unfoldable pub create :
      ℕ → Text → Option Text → Option Text → ContactDefaults → Action (Option Customer)
  create t phone email external_id d = execute eng Stmt.insert_customer (λ db.
      insert_free (select (has_phone t phone) db.customers)
        (contact_row t phone email external_id d db) db)

unfoldable pub found_or_created : Option Customer → Action Customer → Action Customer
found_or_created (some c) creation = pure c
found_or_created none creation = creation

-- `fold` is PostgreSQL's `lower`.
module _ (fold : Text → Text) where
  abbrev pub has_email : ℕ → Text → Customer → Bool
  has_email t email c =
      c.tenant_id == t
      && is_null c.deleted_at
      && elim c.email [ none ↦ false | some e ↦ same_text (fold e) (fold email) ]

  unfoldable pub find_email : ℕ → Option Text → Action (Option Customer)
  find_email t none = pure none
  find_email t (some email) = gets (λ db. oldest (select (has_email t email) db.customers))

  abbrev pub has_external_id : ℕ → Text → Customer → Bool
  has_external_id t external_id c =
      c.tenant_id == t
      && is_null c.deleted_at
      && elim c.external_id [ none ↦ false | some e ↦ same_text e external_id ]

  unfoldable pub find_external_id : ℕ → Option Text → Action (Option Customer)
  find_external_id t none = pure none
  find_external_id t (some external_id) =
      gets (λ db. oldest (select (has_external_id t external_id) db.customers))

  unfoldable pub find : ℕ → Option Text → Option Text → Option Text → Action (Option Customer)
  unfolding find_phone find_email find_external_id
  find t phone email external_id = do
    by_phone ← find_phone t phone
    or_else by_phone
        (find_email t email >>= λ by_email. or_else by_email (find_external_id t external_id))

  module _ (eng : Engine) (others : Others) where
    -- The row that was created, or that of the request that was first.
    unfoldable pub created_or_winner : ℕ → Text → Option Customer → Action Customer
    unfolding find publish_event
    created_or_winner t phone (some c) =
        publish_event eng t "contact_created" (some c.id) none >> pure c
    created_or_winner t phone none = do
      meanwhile others.before_refetch
      winner ← find t (some phone) none none
      or_raise winner (AppError.conflict "CUSTOMER_CREATE_CONFLICT")

    unfoldable pub create_contact :
        ℕ → Option Text → Option Text → Option Text → ContactDefaults → Action Customer
    unfolding create created_or_winner
    create_contact t phone email external_id d = do
      number ← or_raise phone (AppError.validation "CONTACT_PHONE_REQUIRED")
      meanwhile others.before_insert
      created ← create eng t number email external_id d
      created_or_winner t number created

    unfoldable pub resolve_contact :
        ℕ → Option Text → Option Text → Option Text → ContactDefaults → Action Customer
    unfolding contact_phone find create_contact found_or_created
    resolve_contact t phone email external_id d = do
      number ← contact_phone (given phone)
      raise_if (not (is_given number || is_given (given email) || is_given (given external_id)))
          (AppError.validation "CONTACT_IDENTIFIER_REQUIRED")
      existing ← find t number (given email) (given external_id)
      found_or_created existing (create_contact t number (given email) (given external_id) d)
