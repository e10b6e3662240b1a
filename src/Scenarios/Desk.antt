-- ===== src/Scenarios/Desk.antt =====
-- A call desk with one job that is ready, in the town, and the theorems on call jobs there.
use realesatecrm.Base.{
  ℕ, ◌+◌, ◌<◌, ◌≤◌, ◌==◌, ◌&&◌, ◌≡◌, ◌≢◌, refl, none, some, List, [], ◌∷◌, ◌⊎◌, arith, codes, All,
  select, map, true, false,
}
use realesatecrm.Core.Errors.{AppError, ok, raised, app}
use realesatecrm.Db.Rows.{Db, CallJob, CallAttempt}
use realesatecrm.Db.Action.{Engine}
use realesatecrm.Agent.Tools.{schedule_call}
use realesatecrm.Agent.Created.{New, schedule_call-creates}
use realesatecrm.Events.{publish_event}
use realesatecrm.Agent.Transitions.{is_one_of, is_allowed, valid_status_transitions}
use realesatecrm.Agent.Repository.{
  do_not_call_rows, preferences_of, check_do_not_call, claim_job_for_update, write_job, is_stuck,
  is_job, find_and_reconcile_stuck_jobs,
}
use realesatecrm.Agent.Orchestrator.{CallJobCreate, is_within_calling_window}
use realesatecrm.Agent.Gateway.{
  Completion, Completed, not_placed, record_call_completed, Telephony, start_call, start_checked,
  start_in_window, start_within_limit, begin_call, insert_attempt, place_sfvopi_call, dial,
  after_dialling, record_placed, insert_call, link_call, write_attempt,
}
use realesatecrm.Agent.Jobs.{Sound, finished}
use realesatecrm.Agent.Identity.{Lives}
use realesatecrm.Agent.Queue.{PrimaryKey}
use realesatecrm.Agent.Guards.{MayCall, start_call-MayCall}
use realesatecrm.Agent.Cleared.{named, reconcile-clears}
use realesatecrm.Agent.History.{
  schedule, start, serve, ◌⇝◌, start_here, next, ⇝-Lives, ⇝-Sound, ⇝-finished,
}
use realesatecrm.Agent.Finished.{settled, Closed, record_call_completed-settles}
use realesatecrm.Agent.Refused.{dial-refused}
use realesatecrm.Scenarios.Town.{calm, town}

abbrev id_sum : List CallJob → ℕ
id_sum [] = 0
id_sum (j ∷ js) = j.id + id_sum js

-- Ten in the morning, and an id that no job has.
abbrev pub morning : Engine
morning = record calm { now = 36000; new_id = λ s db. 1 + id_sum db.call_jobs }

below_sum : (n : ℕ) (js : List CallJob) → id_sum js < n → All (λ j. j.id ≢ n) js
below_sum n [] h = tt
below_sum n (j ∷ js) h = (λ e. absurd (omega (arith, e, h)), below_sum n js (omega (arith, h)))

pub morning-PrimaryKey : PrimaryKey morning
unfolding PrimaryKey
morning-PrimaryKey db free = below_sum (1 + id_sum db.call_jobs) db.call_jobs (omega arith)

abbrev pub line : Telephony
line = record {
  from_number = some (codes "+911140000000");
  initiate = λ from_number to_number db. ok 555;
  max_concurrent_calls = 5;
}

abbrev pub callback : CallJob
callback = record {
  id = 61;
  tenant_id = 1;
  lead_id = 40;
  customer_id = 3;
  job_type = "follow_up";
  priority = 5;
  status = "ready";
  scheduled_at = 30000;
  attempt_count = 1;
  max_attempts = 3;
  next_attempt_at = none;
  call_id = none;
  last_error_code = none;
  updated_at = 31000;
}

abbrev pub desk : Db
desk = record town { call_jobs = callback ∷ [] }

abbrev visit : CallJobCreate
visit = record {
  lead_id = 40;
  customer_id = 3;
  job_type = "new_lead";
  priority = 1;
  scheduled_at = none;
}

abbrev served : Db
served = serve morning line (start 1 61) (serve morning line (schedule 1 visit) desk)

history : desk ⇝ served
history =
    next morning line (start 1 61)
      (next morning line (schedule 1 visit) start_here morning-PrimaryKey) morning-PrimaryKey

callback-Sound : Sound callback
callback-Sound = record { capped = omega arith; left = λ w. omega arith }

⇝-Lives_example : Lives desk.call_jobs served.call_jobs
⇝-Lives_example = ⇝-Lives {db = desk} {db' = served} history (tt, tt)

⇝-Sound_example : All Sound served.call_jobs
⇝-Sound_example = ⇝-Sound {db = desk} {db' = served} history (tt, tt) (callback-Sound, tt)

-- A job that has been cancelled, while another is scheduled and the town's is called.
abbrev off : CallJob
off = record callback { id = 62; status = "cancelled" }

abbrev full_desk : Db
full_desk = record desk { call_jobs = callback ∷ off ∷ [] }

abbrev full_served : Db
full_served = serve morning line (start 1 61) (serve morning line (schedule 1 visit) full_desk)

⇝-finished_example :
    (b : CallJob) × (select (λ (k : CallJob). k.id == 62) full_served.call_jobs ≡ b ∷ [])
    × (b.tenant_id ≡ 1)
    × (b.lead_id ≡ 40)
    × (b.customer_id ≡ 3)
    × (b.max_attempts ≡ 3)
    × (1 ≤ b.attempt_count)
    × (is_one_of "cancelled" finished ≡ true → b.status ≡ "cancelled")
⇝-finished_example =
    ⇝-finished {db = full_desk} {db' = full_served} 62 off
      (next morning line (start 1 61)
        (next morning line (schedule 1 visit) start_here morning-PrimaryKey) morning-PrimaryKey)
      (((λ e. absurd (omega (arith, e))), tt), (tt, tt)) refl

visit_allowed : check_do_not_call 1 3 desk ≡ (ok false, desk)
unfolding check_do_not_call do_not_call_rows preferences_of
visit_allowed = refl

schedule_call-creates_example :
    (job : CallJob) × (after : Db) × (schedule_call morning 1 visit desk ≡ (ok job, after))
    × (after.call_jobs ≡ job ∷ callback ∷ [])
    × New 1 visit job
    × ((job.status ≡ "queued") × (job.scheduled_at ≡ 36000))
schedule_call-creates_example =
    schedule_call-creates morning (λ s db. refl) 1 visit false desk visit_allowed

start_call-MayCall_example :
    ((start_call morning line 1 61 desk).1.call_attempts ≡ []) ⊎ MayCall morning line 1 61 desk
start_call-MayCall_example = start_call-MayCall morning line 1 61 desk

reconcile-clears_example :
    (db' : Db) × (find_and_reconcile_stuck_jobs morning none 30 desk
      ≡ (ok (map named (select (is_stuck morning none 30 desk) desk.call_jobs)), db'))
    × All (λ j. is_stuck morning none 30 desk j ≡ false) db'.call_jobs
reconcile-clears_example = reconcile-clears morning none 30 desk (λ d. refl)

-- The job is dialled: its second attempt is under way.
dialled :
    map (λ (a : CallAttempt). a.attempt_number) (start_call morning line 1 61 desk).1.call_attempts
    ≡ 2 ∷ []
unfolding start_call claim_job_for_update check_do_not_call start_checked start_in_window
    start_within_limit begin_call is_allowed valid_status_transitions is_one_of do_not_call_rows
    preferences_of is_within_calling_window write_job insert_attempt publish_event place_sfvopi_call
    dial after_dialling record_placed insert_call link_call write_attempt
dialled = refl

-- The same job while it is called, and a Superfone that refuses to dial.
abbrev called : CallJob
called = record callback { status = "calling"; attempt_count = 2 }

abbrev attempt : CallAttempt
attempt = record {
  id = 71;
  tenant_id = 1;
  lead_id = 40;
  customer_id = 3;
  call_job_id = 61;
  attempt_number = 2;
  status = "in_progress";
  outcome = none;
  duration_seconds = none;
  provider_call_id = none;
  failure_code = none;
}

abbrev busy_desk : Db
busy_desk = record desk { call_jobs = called ∷ []; call_attempts = attempt ∷ [] }

abbrev dead_line : Telephony
dead_line = record line {
  initiate = λ from_number to_number db. raised (app (AppError.conflict "SFVOPI_DOWN"));
}

abbrev talk : Completion
talk = record {
  outcome = "connected";
  duration_seconds = some 90;
  call_summary = none;
  provider_call_id = none;
  failure_code = none;
}

record_call_completed-settles_example :
    (done : Completed) × (after : Db) × (record_call_completed morning 1 61 71 talk busy_desk
      ≡ (ok done, after))
    × ((b : CallAttempt) × (done.attempt ≡ some b)
        × (select (λ (b : CallAttempt). b.id == 71 && b.tenant_id == 1) after.call_attempts
            ≡ b ∷ [])
        × Closed talk attempt b)
    × (select (is_job 1 61) after.call_jobs ≡ done.job ∷ [])
    × (done.job.attempt_count ≡ 2)
    × (done.job.status ≡ settled called "connected")
record_call_completed-settles_example =
    record_call_completed-settles morning (λ s db. refl) 1 61 71 talk called attempt busy_desk refl
      refl refl refl

dial-refused_example :
    (k : CallJob) × (after : Db) × (dial morning dead_line 1 called attempt
        (some (codes "+911140000000"))
        (some (codes "+919876543210"))
        busy_desk
      ≡ (ok (not_placed "SFVOPI_DOWN" k), after))
    × (k.attempt_count ≡ 2)
    × (k.status ≡ "retry_pending")
dial-refused_example =
    dial-refused morning (λ s db. refl) 1 called attempt busy_desk refl refl refl refl dead_line
      (codes "+911140000000") (codes "+919876543210") (AppError.conflict "SFVOPI_DOWN") refl
