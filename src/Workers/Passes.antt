-- ===== src/Workers/Passes.antt =====
-- The scheduler as a client of the call queue: backend/app/workers/call_scheduler.py.
use realesatecrm.Db.Rows.{Db}
use realesatecrm.Db.Action.{Action}
use realesatecrm.Workers.Rounds.{Rounds}
