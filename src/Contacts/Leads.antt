-- ===== src/Contacts/Leads.antt =====
-- backend/app/leads/resolver.py, class LeadResolver: the find-or-create of a contact's open lead. The source,
-- the notes and the metadata of a new lead are left out; its number comes from a trigger.
use realesatecrm.Base.{
  ℕ, String, ◌≡◌, refl, subst, ap, ◌∙◌, Bool, true, not, ◌&&◌, Option, none, some, List, [], ◌∷◌,
  ◌==◌, ==_iff, leb, str_eq, if◌then◌else◌, select, arith,
}
use realesatecrm.Core.Errors.{Result, ok}
use realesatecrm.Db.Rows.{Db, Lead}
use realesatecrm.Db.Action.{Action, Stmt, Engine, ◌>>=◌, ◌>>◌, pure, gets, execute}
use realesatecrm.Db.Table.{is_null}
use realesatecrm.Db.Inversion.{>>=-eq-ok, execute-eq-ok}
use realesatecrm.Events.{publish_event}

-- `status NOT IN ('converted', 'lost', 'do_not_contact')`
abbrev pub is_open : String → Bool
is_open s = not (str_eq s "converted") && (not (str_eq s "lost") && not (str_eq s "do_not_contact"))

abbrev pub is_open_lead : ℕ → ℕ → Lead → Bool
is_open_lead t contact l =
    l.tenant_id == t && l.customer_id == contact && is_null l.deleted_at && is_open l.status

-- `ORDER BY created_at DESC LIMIT 1`
abbrev pub later_lead : Lead → Option Lead → Option Lead
later_lead l none = some l
later_lead l (some m) = if leb m.created_at l.created_at then some l else some m

abbrev pub newest : List Lead → Option Lead
newest [] = none
newest (l ∷ rest) = later_lead l (newest rest)

unfoldable pub find_open_lead : ℕ → ℕ → Action (Option Lead)
find_open_lead t contact = gets (λ db. newest (select (is_open_lead t contact) db.leads))

module _ (eng : Engine) where
  abbrev pub lead_row : ℕ → ℕ → Db → Lead
  lead_row t contact db = record {
    id = eng.new_id Stmt.insert_lead db;
    tenant_id = t;
    customer_id = contact;
    status = "new";
    lead_score = 0;
    converted_at = none;
    created_at = eng.now;
    updated_at = eng.now;
    deleted_at = none;
  }

  unfoldable pub create_lead : ℕ → ℕ → Action Lead
  create_lead t contact =
      execute eng Stmt.insert_lead
        (λ db. let row = lead_row t contact db in (row, record db { leads = row ∷ db.leads }))

  -- `resolve_lead` where no open lead is found.
  unfoldable pub open_lead : ℕ → ℕ → Action Lead
  unfolding create_lead publish_event
  open_lead t contact = do
    created ← create_lead t contact
    publish_event eng t "lead_created" (some contact) (some created.id)
    pure created

  unfoldable pub found_or_opened : ℕ → ℕ → Option Lead → Action Lead
  unfolding open_lead
  found_or_opened t contact (some l) = pure l
  found_or_opened t contact none = open_lead t contact

  unfoldable pub resolve_lead : ℕ → ℕ → Action Lead
  unfolding find_open_lead found_or_opened
  resolve_lead t contact = do
    existing ← find_open_lead t contact
    found_or_opened t contact existing

newest-none : (rows : List Lead) → newest rows ≡ none → rows ≡ []
newest-none [] h = refl
newest-none (l ∷ rest) h = absurd (later l (newest rest) h)
  where
    later : (m : Lead) (o : Option Lead) → later_lead m o ≡ none → ⊥
    later m none k = cc
    later m (some n) k = ground (arith, k)

publish_event-leads :
    (eng : Engine) (t : ℕ) (event_type : String) (contact lead : Option ℕ) (db db' : Db)
    (u : Unit {0})
    → publish_event eng t event_type contact lead db ≡ (ok u, db')
    → db'.leads ≡ db.leads
unfolding publish_event
publish_event-leads eng t event_type contact lead db db' u h = ground (arith, h)

module _ (eng : Engine) (t contact : ℕ) where
  own_lead : (db : Db) → is_open_lead t contact (lead_row eng t contact db) ≡ true
  own_lead db = ground (arith, ==_iff t t, ==_iff contact contact)

  inserted :
      (row : Lead) (db db' : Db)
      → select (is_open_lead t contact) db.leads ≡ []
      → create_lead eng t contact db ≡ (ok row, db')
      → newest (select (is_open_lead t contact) db'.leads) ≡ some row
  unfolding create_lead
  inserted row db db' nothing e =
      let done =
        execute-eq-ok eng Stmt.insert_lead
          (λ x. let new = lead_row eng t contact x in (new, record x { leads = new ∷ x.leads })) db
          e in
      let same : record db { leads = lead_row eng t contact db ∷ db.leads } ≡ db' =
        ap (λ (r : Lead × Db). r.1) done in
      let its : lead_row eng t contact db ≡ row = ap (λ (r : Lead × Db). r.0) done in
      subst (λ (x : Db). newest (select (is_open_lead t contact) x.leads) ≡ some row) same
        (rw (own_lead db) (rw nothing (ap (λ (x : Lead). some x) its)))

  opened-found :
      (l : Lead) (db db' : Db)
      → newest (select (is_open_lead t contact) db.leads) ≡ none
      → open_lead eng t contact db ≡ (ok l, db')
      → newest (select (is_open_lead t contact) db'.leads) ≡ some l
  unfolding open_lead create_lead
  opened-found l db db' nothing h =
      let (row, db1, e1, h1) =
        >>=-eq-ok (create_lead eng t contact)
          (λ row. publish_event eng t "lead_created" (some contact) (some row.id) >> pure row) db
          h in
      let (u, db2, e2, h2) =
        >>=-eq-ok (publish_event eng t "lead_created" (some contact) (some row.id)) (λ _. pure row)
          db1 h1 in
      let kept =
        publish_event-leads eng t "lead_created" (some contact) (some row.id) db1 db2 u e2 in
      let same : db2 ≡ db' = ap (λ (r : Result Lead × Db). r.1) h2 in
      let its : row ≡ l = ground (arith, h2) in
      subst (λ (x : Db). newest (select (is_open_lead t contact) x.leads) ≡ some l) same
        (ap (λ (ls : List Lead). newest (select (is_open_lead t contact) ls)) kept
          ∙ (inserted row db db1 (newest-none (select (is_open_lead t contact) db.leads) nothing) e1
              ∙ ap (λ (x : Lead). some x) its))

  -- A lead that has been resolved for a contact is resolved again, and nothing is written then, at any
  -- later time and whatever PostgreSQL would refuse.
  pub resolve_lead-again :
      (later : Engine) (l : Lead) (db db' : Db)
      → resolve_lead eng t contact db ≡ (ok l, db')
      → resolve_lead later t contact db' ≡ (ok l, db')
  unfolding resolve_lead find_open_lead found_or_opened
  resolve_lead-again later l db db' h =
      ap (λ (o : Option Lead). found_or_opened later t contact o db')
        (known (newest (select (is_open_lead t contact) db.leads)) refl h)
    where
      known :
          (o : Option Lead)
          → newest (select (is_open_lead t contact) db.leads) ≡ o
          → found_or_opened eng t contact o db ≡ (ok l, db')
          → newest (select (is_open_lead t contact) db'.leads) ≡ some l
      known none nothing k = opened-found l db db' nothing k
      known (some m) found k =
          let same : db ≡ db' = ap (λ (r : Result Lead × Db). r.1) k in
          let its : m ≡ l = ground (arith, k) in
          subst (λ (x : Db). newest (select (is_open_lead t contact) x.leads) ≡ some l) same
            (found ∙ ap (λ (x : Lead). some x) its)
