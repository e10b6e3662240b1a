-- ===== src/Scenarios/Worker.antt =====
-- The scheduler's loop at the call desk, where one job is due.
use realesatecrm.Base.{ℕ, ◌≡◌, refl, true, none, List, [], ◌∷◌, map}
use realesatecrm.Core.Errors.{ok}
use realesatecrm.Db.Rows.{Db, CallJob}
use realesatecrm.Agent.Eligible.{Due, eligible_rows, get_next_eligible_jobs}
use realesatecrm.Agent.Order.{FirstOf, get_next_eligible_jobs-first}
use realesatecrm.Workers.Scheduler.{Session, Surroundings, Settings, answered}
use realesatecrm.Workers.Rounds.{Rounds}
use realesatecrm.Scenarios.Desk.{morning, line, callback, desk}

abbrev due_job : CallJob
due_job = record callback { id = 62; status = "queued"; priority = 9 }

abbrev urgent_job : CallJob
urgent_job = record callback { id = 63; status = "retry_pending"; priority = 1 }

abbrev queue : Db
queue = record desk { call_jobs = due_job ∷ callback ∷ urgent_job ∷ [] }

urgent_first : get_next_eligible_jobs 36000 none 5 queue ≡ (ok (urgent_job ∷ due_job ∷ []), queue)
unfolding get_next_eligible_jobs
urgent_first = refl

get_next_eligible_jobs-first_example :
    (batch : List Due) × (rest : List Due) × FirstOf 1 (eligible_rows 36000 none queue) batch rest
    × (get_next_eligible_jobs 36000 none 1 queue ≡ (ok (map (λ (r : Due). r.job) batch), queue))
get_next_eligible_jobs-first_example = get_next_eligible_jobs-first 36000 none 1 queue

abbrev quiet : Session
quiet = record { engine = morning; commit_fault = none; meanwhile = λ db. db }

abbrev office : ℕ → Surroundings
office n = record {
  asleep = λ db. db;
  lock = answered true;
  phone = line;
  selection = quiet;
  dispatches = λ k. quiet;
  reconciliation = quiet;
}

abbrev settings : Settings
settings = record { batch_size = 5; reconcile_every_ticks = 20; reconcile_timeout_minutes = 15 }
