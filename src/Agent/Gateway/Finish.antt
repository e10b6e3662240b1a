-- ===== src/Agent/Gateway/Finish.antt =====
-- Preparing and finishing a call: `prepare_call`, `record_call_completed` and the failure of a placement.
use realesatecrm.Base.{
  ℕ, ◌+◌, String, Text, Bool, Option, none, some, List, [], ◌∷◌, ◌&&◌, ◌==◌, ltb, str_eq,
  if◌then◌else◌, select,
}
use realesatecrm.Core.Errors.{AppError}
use realesatecrm.Db.Rows.{CallJob, CallAttempt, CallRecord}
use realesatecrm.Db.Action.{
  Action, Stmt, Engine, ◌>>=◌, ◌>>◌, pure, gets, one_or_none, or_raise, execute, on_error,
}
use realesatecrm.Db.Table.{update_where}
use realesatecrm.Events.{publish_event}
use realesatecrm.Agent.Transitions.{is_one_of, validate_job_status_transition}
use realesatecrm.Agent.Repository.{
  is_call_lead, claim_job_for_update, write_job, save_agent_call_context_snapshot,
}
use realesatecrm.Agent.Orchestrator.{job_not_found, update_job_status}

abbrev pub retryable_outcomes : List String
retryable_outcomes = "no_answer" ∷ "busy" ∷ "technical_failure" ∷ []

-- Where a finished attempt leaves its job: the state, the time of the next attempt, and the error.
pub record NextState : Type 0 where
  pub next_status : String
  pub next_attempt_at : Option ℕ
  pub error_code : Option String

abbrev pub or_code : Option String → String → Option String
or_code none code = some code
or_code (some c) code = some (if str_eq c "" then code else c)

-- The retry policy of `record_call_completed`. The message of a retryable outcome and its default
-- code carry the outcome; the code is kept without it.
unfoldable pub next_state : ℕ → CallJob → String → Option String → NextState
next_state now job outcome failure_code =
    if is_one_of outcome retryable_outcomes && ltb job.attempt_count job.max_attempts
    then record {
      next_status = "retry_pending";
      next_attempt_at = some (now + 7200);
      error_code = or_code failure_code "RETRYABLE_OUTCOME";
    }
    else if is_one_of outcome retryable_outcomes
    then record {
      next_status = "failed";
      next_attempt_at = none;
      error_code = or_code failure_code "MAX_ATTEMPTS_EXCEEDED";
    }
    else record { next_status = "completed"; next_attempt_at = none; error_code = none }

-- The arguments of `record_call_completed` on the attempt.
pub record Completion : Type 0 where
  pub outcome : String
  pub duration_seconds : Option ℕ
  pub call_summary : Option Text
  pub provider_call_id : Option ℕ
  pub failure_code : Option String

-- What `record_call_completed` returns.
pub record Completed : Type 0 where
  pub job : CallJob
  pub attempt : Option CallAttempt
  pub next_status : String

-- What `start_call` returns: with `success` or without.
pub data Placement : Type 0 where
  placed : CallJob → CallAttempt → Placement
  not_placed : String → CallJob → Placement

abbrev pub failed_placement : String → Completion
failed_placement code = record {
  outcome = "technical_failure";
  duration_seconds = none;
  call_summary = none;
  provider_call_id = none;
  failure_code = some code;
}

module _ (eng : Engine) where
  abbrev pub complete_attempt : Completion → CallAttempt → CallAttempt
  complete_attempt d a = record a {
    status = "completed";
    outcome = some d.outcome;
    duration_seconds = d.duration_seconds;
    provider_call_id = elim d.provider_call_id [ none ↦ a.provider_call_id | some p ↦ some p ];
    failure_code = d.failure_code;
  }

  unfoldable pub write_attempt :
      (CallAttempt → Bool) → (CallAttempt → CallAttempt) → Action (List CallAttempt)
  write_attempt hit f = execute eng Stmt.update_attempt (λ db.
      let rows = update_where hit f db.call_attempts in
      (select hit rows, record db { call_attempts = rows }))

  abbrev pub finish_job : NextState → CallJob → CallJob
  finish_job n j = record j {
    status = n.next_status;
    next_attempt_at = n.next_attempt_at;
    last_error_code = n.error_code;
    updated_at = eng.now;
  }

  -- `if job.get("call_id") and call_summary is not None`
  unfoldable pub save_summary : Option ℕ → Option Text → Action (Unit {0})
  save_summary (some call_id) (some summary) = execute eng Stmt.update_call (λ db. (
    tt,
    record db {
      calls =
          update_where (λ (c : CallRecord). c.id == call_id)
            (λ c. record c { call_summary = some summary }) db.calls;
    },
  ))
  save_summary call_id summary = pure tt

  -- `record_call_completed` once the attempt is closed.
  unfoldable pub finish_call : ℕ → ℕ → CallJob → Completion → Option CallAttempt → Action Completed
  unfolding next_state write_job save_summary publish_event
  finish_call t job_id job d attempt = do
    validate_job_status_transition job.status
        (next_state eng.now job d.outcome d.failure_code).next_status
    job_row ← write_job eng t job_id (finish_job (next_state eng.now job d.outcome d.failure_code))
    save_summary job.call_id d.call_summary
    publish_event eng t
        (if str_eq (next_state eng.now job d.outcome d.failure_code).next_status "completed"
          then "call_completed"
          else "call_failed")
        (some job_row.customer_id) (some job_row.lead_id)
    pure (record {
      job = job_row;
      attempt = attempt;
      next_status = (next_state eng.now job d.outcome d.failure_code).next_status;
    })

  unfoldable pub record_call_completed : ℕ → ℕ → ℕ → Completion → Action Completed
  unfolding claim_job_for_update write_attempt finish_call
  record_call_completed t job_id attempt_id d = do
    found ← claim_job_for_update eng t job_id
    job ← or_raise found job_not_found
    rows ← write_attempt (λ a. a.id == attempt_id && a.tenant_id == t) (complete_attempt d)
    attempt ← one_or_none rows
    finish_call t job_id job d attempt

  -- The block that `prepare_call` tries.
  unfoldable pub build_context : ℕ → ℕ → CallJob → Action CallJob
  unfolding save_agent_call_context_snapshot update_job_status
  build_context t id job = do
    rows ← gets (λ db. select (is_call_lead (some t) job.lead_id db) db.leads)
    lead ← one_or_none rows
    or_raise lead (AppError.not_found "LEAD_NOT_FOUND")
    save_agent_call_context_snapshot eng t id job.lead_id job.customer_id
    update_job_status eng t id "ready" none

  unfoldable pub prepare_call : ℕ → ℕ → Action CallJob
  unfolding claim_job_for_update update_job_status build_context
  prepare_call t id = do
    found ← claim_job_for_update eng t id
    job ← or_raise found job_not_found
    validate_job_status_transition job.status "preparing"
    update_job_status eng t id "preparing" none
    on_error (build_context t id job)
        (update_job_status eng t id "retry_pending" (some "PREPARATION_FAILED") >> pure tt)

  unfoldable pub fail_placement : ℕ → CallJob → CallAttempt → String → Action Placement
  unfolding record_call_completed
  fail_placement t job attempt code =
      record_call_completed t job.id attempt.id (failed_placement code) >>= λ completion.
      pure (not_placed code completion.job)
