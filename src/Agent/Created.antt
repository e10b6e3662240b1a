-- ===== src/Agent/Created.antt =====
-- `schedule_call` where the database refuses nothing: the job that it leaves in the queue.
use realesatecrm.Base.{
  ℕ, ◌≡◌, refl, ◌∙◌, String, Option, none, some, ◌∷◌, Bool, true, false, if◌then◌else◌,
}
use realesatecrm.Core.Errors.{ok}
use realesatecrm.Db.Rows.{Db, CallJob}
use realesatecrm.Db.Action.{Stmt, Engine, pure, ◌>>◌, Action}
use realesatecrm.Db.Table.{coalesce}
use realesatecrm.Db.Inversion.{>>=-ok}
use realesatecrm.Events.{publish_event}
use realesatecrm.Agent.Repository.{check_do_not_call}
use realesatecrm.Agent.Orchestrator.{CallJobCreate, job_row, insert_job, create_call_job}
use realesatecrm.Agent.Tools.{schedule_call}
use realesatecrm.Agent.Finished.{Calm, execute-returns, publish_event-returns}

-- A new job of the tenant for what was asked, without attempts.
pub record New (t : ℕ) (d : CallJobCreate) (j : CallJob) : Type 0 where
  pub tenant : j.tenant_id ≡ t
  pub lead : j.lead_id ≡ d.lead_id
  pub customer : j.customer_id ≡ d.customer_id
  pub unattempted : j.attempt_count ≡ 0
  pub limit : j.max_attempts ≡ 3

module _ (eng : Engine) (calm : Calm eng) (t : ℕ) (d : CallJobCreate) where
  -- Where a new job begins, from whether its customer is not to be called.
  abbrev Begins : Bool → CallJob → Type 0
  Begins true j = (j.status ≡ "cancelled") × (j.last_error_code ≡ some "DO_NOT_CALL_ACTIVE")
  Begins false j = (j.status ≡ "queued") × (j.scheduled_at ≡ coalesce d.scheduled_at eng.now)

  insert_job-returns :
      (s : String) (at : ℕ) (code : Option String) (db : Db)
      → insert_job eng t d s at code db ≡ (
        ok (job_row eng t d s at code db),
        record db { call_jobs = job_row eng t d s at code db ∷ db.call_jobs },
      )
  unfolding insert_job
  insert_job-returns s at code db =
      execute-returns eng Stmt.insert_call_job
        (λ x. (
          job_row eng t d s at code x,
          record x { call_jobs = job_row eng t d s at code x ∷ x.call_jobs },
        ))
        db (calm Stmt.insert_call_job db)

  abbrev began : Bool → Db → CallJob
  began true db = job_row eng t d "cancelled" eng.now (some "DO_NOT_CALL_ACTIVE") db
  began false db = job_row eng t d "queued" (coalesce d.scheduled_at eng.now) none db

  abbrev insert_checked : Bool → Action CallJob
  insert_checked is_dnc =
      if is_dnc
      then insert_job eng t d "cancelled" eng.now (some "DO_NOT_CALL_ACTIVE")
      else insert_job eng t d "queued" (coalesce d.scheduled_at eng.now) none

  create_call_job-returns :
      (is_dnc : Bool) (db : Db)
      → check_do_not_call t d.customer_id db ≡ (ok is_dnc, db)
      → create_call_job eng t d db
        ≡ (ok (began is_dnc db), record db { call_jobs = began is_dnc db ∷ db.call_jobs })
  unfolding create_call_job
  create_call_job-returns true db h =
      >>=-ok (check_do_not_call t d.customer_id) insert_checked db h ∙ insert_job-returns _ _ _ db
  create_call_job-returns false db h =
      >>=-ok (check_do_not_call t d.customer_id) insert_checked db h ∙ insert_job-returns _ _ _ db

  began-New : (is_dnc : Bool) (db : Db) → New t d (began is_dnc db)
  began-New true db = record {
    tenant = refl;
    lead = refl;
    customer = refl;
    unattempted = refl;
    limit = refl;
  }
  began-New false db = record {
    tenant = refl;
    lead = refl;
    customer = refl;
    unattempted = refl;
    limit = refl;
  }

  began-Begins : (is_dnc : Bool) (db : Db) → Begins is_dnc (began is_dnc db)
  began-Begins true db = (refl, refl)
  began-Begins false db = (refl, refl)

  -- If PostgreSQL refuses nothing and the customer's do-not-call mark can be read, `schedule_call`
  -- returns, and leaves the job that it returns in front of the jobs before, which stay: it is the
  -- tenant's, for the lead and the customer asked for, without attempts and with a limit of three. It
  -- is 'cancelled' with the code DO_NOT_CALL_ACTIVE where the mark is set, and 'queued' for the time
  -- asked for, or for now, where it is not.
  pub schedule_call-creates :
      (is_dnc : Bool) (db : Db)
      → check_do_not_call t d.customer_id db ≡ (ok is_dnc, db)
      → (job : CallJob) × (after : Db) × (schedule_call eng t d db ≡ (ok job, after))
        × (after.call_jobs ≡ job ∷ db.call_jobs)
        × New t d job
        × Begins is_dnc job
  unfolding schedule_call
  schedule_call-creates is_dnc db h =
      let job = began is_dnc db in
      let mid = record db { call_jobs = job ∷ db.call_jobs } in
      let (after, told, (jobs, _)) =
        publish_event-returns eng calm t 0 "call_scheduled" (some d.customer_id) (some d.lead_id)
          mid in
      (
        job,
        after,
        >>=-ok (create_call_job eng t d)
              (λ job.
                publish_event eng t "call_scheduled" (some d.customer_id) (some d.lead_id)
                >> pure job)
              db (create_call_job-returns is_dnc db h)
            ∙ >>=-ok (publish_event eng t "call_scheduled" (some d.customer_id) (some d.lead_id))
                (λ _. pure job) mid told,
        jobs,
        began-New is_dnc db,
        began-Begins is_dnc db,
      )
