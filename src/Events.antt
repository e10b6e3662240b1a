-- ===== src/Events.antt =====
-- backend/app/events/publisher.py. The payload of an event is left out; tenants are never missing.
use realesatecrm.Base.{ℕ, String, Option, ◌∷◌}
use realesatecrm.Db.Rows.{Db, Event}
use realesatecrm.Db.Action.{Action, Stmt, Engine, execute}

abbrev pub event_row : Engine → ℕ → String → Option ℕ → Option ℕ → Db → Event
event_row eng t event_type contact_id lead_id db = record {
  id = eng.new_id Stmt.insert_event db;
  tenant_id = t;
  event_type = event_type;
  contact_id = contact_id;
  lead_id = lead_id;
}

unfoldable pub publish_event : Engine → ℕ → String → Option ℕ → Option ℕ → Action (Unit {0})
publish_event eng t event_type contact_id lead_id = execute eng Stmt.insert_event (λ db.
    (tt, record db { events = event_row eng t event_type contact_id lead_id db ∷ db.events }))
