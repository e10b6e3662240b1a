-- ===== src/Agent/Orchestrator.antt =====
-- backend/app/agent/orchestrator.py, class CallOrchestrator.
use realesatecrm.Base.{
  ℕ, ◌/◌, ◌%◌, String, Bool, ◌&&◌, Option, none, some, ◌∷◌, leb, ltb, if◌then◌else◌,
}
use realesatecrm.Core.Errors.{AppError}
use realesatecrm.Db.Rows.{Db, CallJob}
use realesatecrm.Db.Action.{Action, Stmt, Engine, ◌>>=◌, ◌>>◌, or_raise, execute}
use realesatecrm.Db.Table.{coalesce}
use realesatecrm.Agent.Transitions.{validate_job_status_transition}
use realesatecrm.Agent.Repository.{check_do_not_call, claim_job_for_update, write_job}

-- `start_hour <= now.hour < end_hour`, of the time in UTC.
unfoldable pub is_within_calling_window : ℕ → Bool
is_within_calling_window now = leb 9 (now / 3600 % 24) && ltb (now / 3600 % 24) 20

abbrev pub job_not_found : AppError
job_not_found = AppError.not_found "JOB_NOT_FOUND"

-- The arguments of `create_call_job`.
pub record CallJobCreate : Type 0 where
  pub lead_id : ℕ
  pub customer_id : ℕ
  pub job_type : String
  pub priority : ℕ
  pub scheduled_at : Option ℕ

module _ (eng : Engine) where
  -- The columns that the INSERTs leave out have the defaults of the model.
  abbrev pub job_row : ℕ → CallJobCreate → String → ℕ → Option String → Db → CallJob
  job_row t d status scheduled_at error_code db = record {
    id = eng.new_id Stmt.insert_call_job db;
    tenant_id = t;
    lead_id = d.lead_id;
    customer_id = d.customer_id;
    job_type = d.job_type;
    priority = d.priority;
    status = status;
    scheduled_at = scheduled_at;
    attempt_count = 0;
    max_attempts = 3;
    next_attempt_at = none;
    call_id = none;
    last_error_code = error_code;
    updated_at = eng.now;
  }

  unfoldable pub insert_job : ℕ → CallJobCreate → String → ℕ → Option String → Action CallJob
  insert_job t d status scheduled_at error_code = execute eng Stmt.insert_call_job (λ db.
      let row = job_row t d status scheduled_at error_code db in
      (row, record db { call_jobs = row ∷ db.call_jobs }))

  unfoldable pub create_call_job : ℕ → CallJobCreate → Action CallJob
  unfolding check_do_not_call insert_job
  create_call_job t d = do
    is_dnc ← check_do_not_call t d.customer_id
    if is_dnc
        then insert_job t d "cancelled" eng.now (some "DO_NOT_CALL_ACTIVE")
        else insert_job t d "queued" (coalesce d.scheduled_at eng.now) none

  abbrev pub set_status : String → Option String → CallJob → CallJob
  set_status new_status error_code j = record j {
    status = new_status;
    last_error_code = elim error_code [ none ↦ j.last_error_code | some e ↦ some e ];
    updated_at = eng.now;
  }

  unfoldable pub update_job_status : ℕ → ℕ → String → Option String → Action CallJob
  unfolding claim_job_for_update write_job
  update_job_status t id new_status error_code = do
    found ← claim_job_for_update eng t id
    job ← or_raise found job_not_found
    validate_job_status_transition job.status new_status
    write_job eng t id (set_status new_status error_code)
