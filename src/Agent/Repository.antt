-- ===== src/Agent/Repository.antt =====
-- backend/app/agent/repository.py: the statements on call jobs and follow-ups.
use realesatecrm.Base.{
  ℕ, ◌+◌, ◌*◌, String, Text, Bool, true, ◌&&◌, ◌||◌, not, Option, none, some, List, [], ◌∷◌, ◌++◌,
  ◌==◌, ltb, if◌then◌else◌, length, select,
}
use realesatecrm.Core.Errors.{AppError}
use realesatecrm.Db.Rows.{Db, Customer, ContactPreference, CallJob, CallContext, FollowUp, Lead}
use realesatecrm.Db.Action.{
  Action, Stmt, Engine, ◌>>=◌, ◌>>◌, pure, gets, one, one_or_none, or_raise, execute,
}
use realesatecrm.Db.Table.{update_where, in_scope, is_null}
use realesatecrm.Agent.Transitions.{is_one_of}

abbrev pub is_job : ℕ → ℕ → CallJob → Bool
is_job t id j = j.id == id && j.tenant_id == t

-- The answers of the outer join of customers and their contact preferences.
unfoldable pub preferences_of : Customer → List ContactPreference → List Bool
preferences_of c [] = []
preferences_of c (p ∷ ps) =
    let rest = preferences_of c ps in
    if p.customer_id == c.id then (c.do_not_call || p.do_not_call) ∷ rest else rest

abbrev pub or_alone : Bool → List Bool → List Bool
or_alone b [] = b ∷ []
or_alone b (a ∷ rest) = a ∷ rest

unfoldable pub do_not_call_rows : List ContactPreference → List Customer → List Bool
unfolding preferences_of
do_not_call_rows ps [] = []
do_not_call_rows ps (c ∷ cs) =
    or_alone c.do_not_call (preferences_of c ps) ++ do_not_call_rows ps cs

-- `if not row: return True`
abbrev pub or_true : Option Bool → Bool
or_true none = true
or_true (some b) = b

unfoldable pub check_do_not_call : ℕ → ℕ → Action Bool
unfolding do_not_call_rows
check_do_not_call t customer_id = do
  rows ← gets (λ db.
      do_not_call_rows db.preferences
        (select (λ (c : Customer). c.id == customer_id && c.tenant_id == t) db.customers))
  row ← one_or_none rows
  pure (or_true row)

-- The lead and its customer: the first query of `get_pre_call_context`.
abbrev pub is_call_lead : Option ℕ → ℕ → Db → Lead → Bool
is_call_lead scope id db l =
    l.id == id
    && is_null l.deleted_at
    && in_scope scope l.tenant_id
    && ltb 0 (length (select (λ (c : Customer). c.id == l.customer_id) db.customers))

abbrev pub is_follow_up : ℕ → ℕ → FollowUp → Bool
is_follow_up t id f = f.id == id && f.tenant_id == t

-- The call jobs of a lead that are not yet dialled.
abbrev pub is_pending_job_of : ℕ → ℕ → CallJob → Bool
is_pending_job_of t lead j =
    j.lead_id == lead
    && j.tenant_id == t
    && is_one_of j.status ("queued" ∷ "scheduled" ∷ "preparing" ∷ "ready" ∷ "retry_pending" ∷ [])

abbrev pub new_status_of : CallJob → String
new_status_of j = if ltb j.attempt_count j.max_attempts then "retry_pending" else "failed"

module _ (eng : Engine) where
  -- `FOR UPDATE SKIP LOCKED`
  unfoldable pub claim_job_for_update : ℕ → ℕ → Action (Option CallJob)
  claim_job_for_update t id = do
    rows ← gets (λ db. if eng.locked id db then [] else select (is_job t id) db.call_jobs)
    one_or_none rows

  -- `UPDATE public.call_jobs SET f … RETURNING *`, read by `one()`.
  unfoldable pub write_job : ℕ → ℕ → (CallJob → CallJob) → Action CallJob
  write_job t id f = do
    rows ← execute eng Stmt.update_call_job (λ db.
        let rows = update_where (is_job t id) f db.call_jobs in
        (select (is_job t id) rows, record db { call_jobs = rows }))
    one rows

  abbrev pub context_row : ℕ → ℕ → ℕ → ℕ → Db → CallContext
  context_row t job lead customer db = record {
    id = eng.new_id Stmt.insert_snapshot db;
    tenant_id = t;
    call_job_id = job;
    lead_id = lead;
    customer_id = customer;
  }

  unfoldable pub save_agent_call_context_snapshot : ℕ → ℕ → ℕ → ℕ → Action CallContext
  save_agent_call_context_snapshot t job lead customer = execute eng Stmt.insert_snapshot (λ db.
      let row = context_row t job lead customer db in
      (row, record db { call_contexts = row ∷ db.call_contexts }))

  -- A job that is in flight and was last touched too long ago; a locked one is skipped.
  abbrev pub is_stuck : Option ℕ → ℕ → Db → CallJob → Bool
  is_stuck scope timeout_minutes db j =
      is_one_of j.status ("preparing" ∷ "ready" ∷ "calling" ∷ [])
      && ltb (j.updated_at + 60 * timeout_minutes) eng.now
      && in_scope scope j.tenant_id
      && not (eng.locked j.id db)

  abbrev pub time_out : String → CallJob → CallJob
  time_out new_status j = record j {
    status = new_status;
    last_error_code = some "STUCK_JOB_TIMEOUT";
    updated_at = eng.now;
  }

  -- One round of the loop: the statement names the row by its id alone.
  unfoldable pub reconcile_job : CallJob → Action (Unit {0})
  reconcile_job job = execute eng Stmt.reconcile_call_job (λ db. (
    tt,
    record db {
      call_jobs = update_where (λ j. j.id == job.id) (time_out (new_status_of job)) db.call_jobs;
    },
  ))

  unfoldable pub reconcile_jobs : List CallJob → Action (List (ℕ × String))
  unfolding reconcile_job
  reconcile_jobs [] = pure []
  reconcile_jobs (job ∷ jobs) =
      reconcile_job job
      >> (reconcile_jobs jobs >>= λ done. pure ((job.id, new_status_of job) ∷ done))

  unfoldable pub find_and_reconcile_stuck_jobs : Option ℕ → ℕ → Action (List (ℕ × String))
  unfolding reconcile_jobs
  find_and_reconcile_stuck_jobs scope timeout_minutes = do
    stuck ← gets (λ db. select (is_stuck scope timeout_minutes db) db.call_jobs)
    reconcile_jobs stuck

  unfoldable pub write_follow_up : ℕ → ℕ → (FollowUp → FollowUp) → Action FollowUp
  write_follow_up t id f = do
    rows ← execute eng Stmt.update_follow_up (λ db.
        let rows = update_where (is_follow_up t id) f db.follow_ups in
        (select (is_follow_up t id) rows, record db { follow_ups = rows }))
    row ← one_or_none rows
    or_raise row (AppError.not_found "NOT_FOUND")

  unfoldable pub reschedule_follow_up : ℕ → ℕ → ℕ → Option Text → Action FollowUp
  unfolding write_follow_up
  reschedule_follow_up t id scheduled_at reason = write_follow_up t id (λ f. record f {
    scheduled_at = scheduled_at;
    reason = elim reason [ none ↦ f.reason | some r ↦ some r ];
    status = "scheduled";
  })

  abbrev pub cancel_job : CallJob → CallJob
  cancel_job j = record j {
    status = "cancelled";
    last_error_code = some "FOLLOW_UP_CANCELLED";
    updated_at = eng.now;
  }

  unfoldable pub cancel_pending_jobs : ℕ → ℕ → Action (Unit {0})
  cancel_pending_jobs t lead = execute eng Stmt.cancel_call_jobs (λ db. (
    tt,
    record db { call_jobs = update_where (is_pending_job_of t lead) cancel_job db.call_jobs },
  ))

  unfoldable pub cancel_follow_up : ℕ → ℕ → Option Text → Action FollowUp
  unfolding write_follow_up cancel_pending_jobs
  cancel_follow_up t id cancel_reason = do
    row ←
        write_follow_up t id (λ f. record f { status = "cancelled"; cancel_reason = cancel_reason })
    cancel_pending_jobs t row.lead_id
    pure row
