-- ===== src/Webhooks/Once.antt =====
-- A delivery takes effect once: backend/app/webhooks/superfone/service.py.
use realesatecrm.Base.{
  ◌≡◌, refl, sym, ap, subst, ◌∙◌, ◌⊎◌, inl, inr, Bool, Option, none, some, List, [], ◌∷◌, select,
  arith,
}
use realesatecrm.Core.Errors.{DbError, Raised, Result, ok, raised, dbapi}
use realesatecrm.Db.Rows.{Db, WebhookEvent}
use realesatecrm.Db.Action.{Action, Stmt, Engine}
use realesatecrm.Contacts.Unique.{Preserves}
use realesatecrm.Webhooks.Superfone.{
  Key, is_event, event_row, insert_first, record_event, if_new, once, Delivery, handle, receive,
}
use realesatecrm.Webhooks.Kept.{
  key_of, Recorded, own_event, process, handle-once, process-Keeps, once-Keeps,
}

-- A recorded delivery stays recorded, whatever is delivered.
receive-Recorded :
    (k : Key) (eng : Engine) (d : Delivery) (db : Db)
    → Recorded k db
    → Recorded k (receive eng d db)
unfolding receive Preserves
receive-Recorded k eng d db h =
    let kept = once-Keeps k eng (key_of d) (process eng d) (process-Keeps k eng d) db h in
    go (handle eng d db)
      (subst (λ (m : Action (Unit {0})). Recorded k (m db).1) (sym (handle-once eng d)) kept)
  where
    go :
        (r : Result (Unit {0}) × Db)
        → Recorded k r.1
        → Recorded k (let (x, db') = r in elim x as (λ _. Db) [ ok u ↦ db' | raised e ↦ db ])
    go (ok u, db') kept = kept
    go (raised e, db') kept = h

-- What the endpoint leaves of an outcome.
abbrev settled : Db → Result (Unit {0}) × Db → Db
settled db (ok u, db') = db'
settled db (raised e, db') = db

receive-once :
    (eng : Engine) (d : Delivery) (db : Db)
    → receive eng d db ≡ settled db (once eng (key_of d) (process eng d) db)
unfolding receive
receive-once eng d db =
    by_outcome (handle eng d db)
    ∙ ap (λ (m : Action (Unit {0})). settled db (m db)) (handle-once eng d)
  where
    by_outcome :
        (r : Result (Unit {0}) × Db)
        → (let (x, db') = r in elim x as (λ _. Db) [ ok u ↦ db' | raised e ↦ db ]) ≡ settled db r
    by_outcome (ok u, db') = refl
    by_outcome (raised e, db') = refl

module _ (eng : Engine) (k : Key) (work : Action (Unit {0})) (db : Db) where
  once_known : Recorded k db → settled db (once eng k work db) ≡ db
  unfolding record_event
  once_known h = ground arith

  first_row :
      select (is_event k) db.webhook_events ≡ []
      → Recorded k (record db { webhook_events = event_row k ∷ db.webhook_events })
  first_row free = ground (arith, own_event k)

  abbrev Served : Result (Unit {0}) × Db → Type 0
  Served r = ((e : Raised) × (r.0 ≡ raised e) × (settled db r ≡ db)) ⊎ Recorded k (settled db r)

  outcome : (r : Result (Unit {0}) × Db) → Recorded k r.1 → Served r
  outcome (ok u, db') h = inr h
  outcome (raised x, db') h = inl (x, refl, refl)

  inserted :
      Preserves (Recorded k) work
      → (rows : List WebhookEvent) → select (is_event k) db.webhook_events ≡ rows
      → Served (let (b, db') = insert_first rows (event_row k) db in if_new work b db')
  unfolding Preserves
  inserted keeps [] e =
      let db' : Db = record db { webhook_events = event_row k ∷ db.webhook_events } in
      outcome (work db') (keeps db' (first_row e))
  inserted keeps (x ∷ xs) e = inr (ground arith)

  -- A delivery that is served has been recorded.
  once_served : Preserves (Recorded k) work → Served (once eng k work db)
  unfolding record_event
  once_served keeps = at_fault (eng.fault Stmt.insert_webhook_event db)
    where
      at_fault :
          (o : Option DbError)
          → Served (
              let (x, db') = elim o as (λ _. Result Bool × Db) [
                | none ↦ (
                  ok (insert_first (select (is_event k) db.webhook_events) (event_row k) db).0,
                  (insert_first (select (is_event k) db.webhook_events) (event_row k) db).1,
                )
                | some e ↦ (raised (dbapi e), db)
              ] in
              elim x as (λ _. Result (Unit {0}) × Db) [
                | ok b ↦ if_new work b db'
                | raised e ↦ (raised e, db')
              ])
      at_fault none = inserted keeps (select (is_event k) db.webhook_events) refl
      at_fault (some e) = inl (dbapi e, refl, refl)

-- A sequence of deliveries, each with its own engine.
unfoldable pub receive_each : List (Engine × Delivery) → Db → Db
receive_each [] db = db
receive_each ((eng, d) ∷ ds) db = receive_each ds (receive eng d db)

receive_each-Recorded :
    (k : Key) (ds : List (Engine × Delivery)) (db : Db)
    → Recorded k db
    → Recorded k (receive_each ds db)
unfolding receive_each
receive_each-Recorded k [] db h = h
receive_each-Recorded k ((eng, d) ∷ ds) db h =
    receive_each-Recorded k ds (receive eng d db) (receive-Recorded k eng d db h)

-- A delivery takes effect once: either it raises and changes nothing, or after it and whatever other
-- deliveries, a delivery of the same provider, type and id changes nothing, whatever else its payload
-- says and whatever the database refuses.
pub receive-takes_effect_once :
    (eng : Engine) (d : Delivery) (db : Db)
    → ((e : Raised) × ((handle eng d db).0 ≡ raised e) × (receive eng d db ≡ db))
      ⊎ ((ds : List (Engine × Delivery)) (again : Engine) (d' : Delivery)
          → key_of d' ≡ key_of d
          → receive again d' (receive_each ds (receive eng d db))
            ≡ receive_each ds (receive eng d db))
receive-takes_effect_once eng d db =
    let first = receive-once eng d db in
    elim (once_served eng (key_of d) (process eng d) db (process-Keeps (key_of d) eng d)) [
      | inl (e, bad, same) ↦
          inl (e, ap (λ (m : Action (Unit {0})). (m db).0) (handle-once eng d) ∙ bad, first ∙ same)
      | inr served ↦ inr λ ds again d' same_key.
          let later = receive_each ds (receive eng d db) in
          let known : Recorded (key_of d) later =
            receive_each-Recorded (key_of d) ds (receive eng d db)
              (subst (Recorded (key_of d)) (sym first) served) in
          receive-once again d' later
          ∙ once_known again (key_of d') (process again d') later
              (subst (λ k. Recorded k later) (sym same_key) known)
    ]
