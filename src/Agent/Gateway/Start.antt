-- ===== src/Agent/Gateway/Start.antt =====
-- Starting a call: `start_call` and `_place_sfvopi_call`.
use realesatecrm.Base.{
  ℕ, ◌+◌, String, Text, Bool, not, Option, none, some, [], ◌∷◌, ◌&&◌, ◌==◌, leb, str_eq,
  if◌then◌else◌, length, select,
}
use realesatecrm.Core.Errors.{AppError, Result, ok, raised, app}
use realesatecrm.Db.Rows.{Db, Customer, CallJob, CallAttempt, CallRecord}
use realesatecrm.Db.Action.{
  Action, Stmt, Engine, ◌>>=◌, ◌>>◌, pure, gets, one, one_or_none, or_raise, raise_if, execute,
}
use realesatecrm.Db.Table.{update_where}
use realesatecrm.Events.{publish_event}
use realesatecrm.Agent.Transitions.{validate_job_status_transition}
use realesatecrm.Agent.Repository.{check_do_not_call, claim_job_for_update, write_job}
use realesatecrm.Agent.Orchestrator.{is_within_calling_window, job_not_found, update_job_status}
use realesatecrm.Agent.Gateway.Finish.{Placement, placed, not_placed, write_attempt, fail_placement}

-- `from_number` is SUPERFONE_SFVOPI_FROM_NUMBER; `initiate` is the client's
-- `initiate_outbound_call`, which gives the `request_uuid` or raises.
pub record Telephony : Type 0 where
  pub from_number : Option Text
  pub initiate : Text → Text → Db → Result ℕ
  pub max_concurrent_calls : ℕ

abbrev pub usable : Option Text → Option Text
usable none = none
usable (some []) = none
usable (some (c ∷ cs)) = some (c ∷ cs)

abbrev pub phone_of : Option Customer → Option Text
phone_of none = none
phone_of (some c) = some c.phone

abbrev pub code_of : AppError → String
code_of (AppError.not_found c) = c
code_of (AppError.unauthorized c) = c
code_of (AppError.forbidden c) = c
code_of (AppError.conflict c) = c
code_of (AppError.validation c) = c
code_of (AppError.business_rule c) = c

module _ (eng : Engine) where
  abbrev pub call_row : ℕ → CallJob → ℕ → Text → Text → Db → CallRecord
  call_row t job request_uuid from_number to_number db = record {
    id = eng.new_id Stmt.insert_call db;
    tenant_id = t;
    lead_id = job.lead_id;
    customer_id = job.customer_id;
    provider = "superfone_sfvopi";
    provider_call_id = request_uuid;
    phone_from = from_number;
    phone_to = to_number;
    status = "initiated";
    answered_at = none;
    ended_at = none;
    recording_url = none;
    call_summary = none;
  }

  unfoldable pub insert_call : ℕ → CallJob → ℕ → Text → Text → Action ℕ
  insert_call t job request_uuid from_number to_number = execute eng Stmt.insert_call (λ db.
      let row = call_row t job request_uuid from_number to_number db in
      (row.id, record db { calls = row ∷ db.calls }))

  -- `UPDATE public.call_jobs SET call_id = …`, without `RETURNING`.
  unfoldable pub link_call : ℕ → ℕ → ℕ → Action (Unit {0})
  link_call t job_id call_id = execute eng Stmt.update_call_job (λ db. (
    tt,
    record db {
      call_jobs =
          update_where (λ j. j.id == job_id && j.tenant_id == t)
            (λ j. record j { call_id = some call_id; updated_at = eng.now }) db.call_jobs;
    },
  ))

  -- `_place_sfvopi_call` once Superfone has taken the call.
  unfoldable pub record_placed : ℕ → CallJob → CallAttempt → Text → Text → ℕ → Action Placement
  unfolding insert_call link_call write_attempt
  record_placed t job attempt from_number to_number request_uuid = do
    call_id ← insert_call t job request_uuid from_number to_number
    link_call t job.id call_id
    rows ←
        write_attempt eng (λ a. a.id == attempt.id)
          (λ a. record a { provider_call_id = some request_uuid })
    updated ← one rows
    pure (placed job updated)

  -- `try: … initiate_outbound_call … except AppError`
  unfoldable pub after_dialling :
      ℕ → CallJob → CallAttempt → Text → Text → Result ℕ → Action Placement
  unfolding record_placed fail_placement
  after_dialling t job attempt from_number to_number (ok request_uuid) =
      record_placed t job attempt from_number to_number request_uuid
  after_dialling t job attempt from_number to_number (raised (app e)) =
      fail_placement eng t job attempt (code_of e)
  after_dialling t job attempt from_number to_number (raised x) = λ db. (raised x, db)

  abbrev pub begin_attempt : CallJob → CallJob
  begin_attempt j = record j {
    status = "calling";
    attempt_count = j.attempt_count + 1;
    updated_at = eng.now;
  }

  abbrev pub attempt_row : ℕ → ℕ → CallJob → Db → CallAttempt
  attempt_row t job_id job db = record {
    id = eng.new_id Stmt.insert_attempt db;
    tenant_id = t;
    lead_id = job.lead_id;
    customer_id = job.customer_id;
    call_job_id = job_id;
    attempt_number = job.attempt_count;
    status = "in_progress";
    outcome = none;
    duration_seconds = none;
    provider_call_id = none;
    failure_code = none;
  }

  unfoldable pub insert_attempt : ℕ → ℕ → CallJob → Action CallAttempt
  insert_attempt t job_id job = execute eng Stmt.insert_attempt (λ db.
      let row = attempt_row t job_id job db in
      (row, record db { call_attempts = row ∷ db.call_attempts }))

abbrev pub is_calling : ℕ → CallJob → Bool
is_calling t j = j.tenant_id == t && str_eq j.status "calling"

module _ (eng : Engine) (phone : Telephony) where
  unfoldable pub dial : ℕ → CallJob → CallAttempt → Option Text → Option Text → Action Placement
  unfolding after_dialling fail_placement
  dial t job attempt (some from_number) (some to_number) = λ db.
      after_dialling eng t job attempt from_number to_number
        (phone.initiate from_number to_number db) db
  dial t job attempt from_number to_number =
      fail_placement eng t job attempt "SFVOPI_MISSING_PHONE_CONFIG"

  unfoldable pub place_sfvopi_call : ℕ → CallJob → CallAttempt → Action Placement
  unfolding dial
  place_sfvopi_call t job attempt = do
    rows ←
        gets (λ db.
          select (λ (c : Customer). c.id == job.customer_id && c.tenant_id == t) db.customers)
    customer ← one_or_none rows
    dial t job attempt (usable phone.from_number) (usable (phone_of customer))

  -- Steps 4 to 6 of `start_call`.
  unfoldable pub begin_call : ℕ → ℕ → Action Placement
  unfolding write_job insert_attempt publish_event place_sfvopi_call
  begin_call t id = do
    job_row ← write_job eng t id (begin_attempt eng)
    attempt ← insert_attempt eng t id job_row
    publish_event eng t "call_started" (some job_row.customer_id) (some job_row.lead_id)
    place_sfvopi_call t job_row attempt

  -- Step 3, the limit on the tenant's concurrent calls, and what follows.
  unfoldable pub start_within_limit : ℕ → ℕ → Action Placement
  unfolding begin_call
  start_within_limit t id = do
    active ← gets (λ db. length (select (is_calling t) db.call_jobs))
    raise_if (leb phone.max_concurrent_calls active)
        (AppError.forbidden "CONCURRENCY_LIMIT_REACHED")
    begin_call t id

  -- Step 2, the calling window, and what follows.
  unfoldable pub start_in_window : ℕ → ℕ → CallJob → Action Placement
  unfolding start_within_limit
  start_in_window t id job =
      if not (is_within_calling_window eng.now)
      then pure (not_placed "OUTSIDE_CALLING_WINDOW" job)
      else start_within_limit t id

  -- Step 1, the re-check of the do-not-call mark, and what follows.
  unfoldable pub start_checked : ℕ → ℕ → CallJob → Bool → Action Placement
  unfolding update_job_status start_in_window
  start_checked t id job is_dnc =
      if is_dnc
      then update_job_status eng t id "cancelled" (some "DO_NOT_CALL_ACTIVE")
        >>= (λ cancelled. pure (not_placed "DO_NOT_CALL_ACTIVE" cancelled))
      else start_in_window t id job

  unfoldable pub start_call : ℕ → ℕ → Action Placement
  unfolding claim_job_for_update check_do_not_call start_checked
  start_call t id = do
    found ← claim_job_for_update eng t id
    job ← or_raise found job_not_found
    validate_job_status_transition job.status "calling"
    is_dnc ← check_do_not_call t job.customer_id
    start_checked t id job is_dnc
