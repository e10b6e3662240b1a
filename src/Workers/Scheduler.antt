-- ===== src/Workers/Scheduler.antt =====
-- backend/app/workers/call_scheduler.py: the loop that dispatches due call jobs.
use realesatecrm.Base.{
  ℕ, zero, suc, ◌%◌, Bool, false, Option, none, some, List, [], ◌∷◌, ◌==◌, if◌then◌else◌,
}
use realesatecrm.Core.Errors.{Result, ok, raised, dbapi, DbError}
use realesatecrm.Db.Rows.{Db, CallJob}
use realesatecrm.Db.Action.{Action, Engine}
use realesatecrm.Agent.Orchestrator.{is_within_calling_window}
use realesatecrm.Agent.Repository.{find_and_reconcile_stuck_jobs}
use realesatecrm.Agent.Gateway.{Telephony, Placement}
use realesatecrm.Agent.Tools.{dispatch_call}
use realesatecrm.Agent.Eligible.{get_next_eligible_jobs}

-- What Redis answers when the lock is asked for: there is no client, the command fails, or whether the
-- key was set.
pub data LockAnswer : Type 0 where
  no_client failed : LockAnswer
  answered : Bool → LockAnswer

-- Whether the lock is held.
unfoldable pub acquire_lock : LockAnswer → Bool
acquire_lock no_client = false
acquire_lock failed = false
acquire_lock (answered set) = set

-- One database session: the engine during it, the refusal of its commit, if it is refused, and what other
-- requests have committed since the session before.
pub record Session : Type 0 where
  pub engine : Engine
  pub commit_fault : Option DbError
  pub meanwhile : Db → Db

-- `async with _session_scope()` around work that ends in a commit, whether it returned or raised. A
-- commit that is refused is rolled back, and its refusal raised.
unfoldable pub in_session : {A : Type 0} → Session → (Engine → Action A) → Action A
in_session s work db =
    let start = s.meanwhile db in
    let (r, db') = work s.engine start in
    elim s.commit_fault [ none ↦ (r, db') | some e ↦ (raised (dbapi e), start) ]

-- `async with _session_scope()` around work with a commit behind it: where the work raises, there is
-- no commit, and the session is rolled back as it closes.
unfoldable pub in_session_or_back : {A : Type 0} → Session → (Engine → Action A) → Action A
unfolding in_session
in_session_or_back s work db =
    let start = s.meanwhile db in
    elim (work s.engine start).0 [ ok a ↦ in_session s work db | raised e ↦ (raised e, start) ]

unfoldable pub dispatch_job : Telephony → CallJob → Session → Action Placement
unfolding in_session
dispatch_job phone job s =
    in_session s (λ eng. dispatch_call eng phone job.tenant_id job.customer_id job.lead_id job.id)

-- The loop over the batch: what a dispatch returns or raises is logged. Each job has a session.
unfoldable pub dispatch_jobs : Telephony → (ℕ → Session) → ℕ → List CallJob → Db → Db
unfolding dispatch_job
dispatch_jobs phone sessions n [] db = db
dispatch_jobs phone sessions n (job ∷ jobs) db =
    dispatch_jobs phone sessions (suc n) jobs (dispatch_job phone job (sessions n) db).1

-- What a tick meets, and what other requests commit while the loop sleeps before it.
pub record Surroundings : Type 0 where
  pub asleep : Db → Db
  pub lock : LockAnswer
  pub phone : Telephony
  pub selection : Session
  pub dispatches : ℕ → Session
  pub reconciliation : Session

abbrev pub batch_of : Result (List CallJob) → List CallJob
batch_of (ok jobs) = jobs
batch_of (raised e) = []

unfoldable pub dispatch_due_jobs : Surroundings → ℕ → Db → Db
unfolding dispatch_jobs get_next_eligible_jobs
dispatch_due_jobs w batch_size db =
    let now = w.selection.engine.now in
    let seen = w.selection.meanwhile db in
    if is_within_calling_window now
    then dispatch_jobs w.phone w.dispatches 0
        (batch_of (get_next_eligible_jobs now none batch_size seen).0) seen
    else seen

unfoldable pub reconcile_stuck_jobs : Session → ℕ → Db → Db
unfolding in_session_or_back
reconcile_stuck_jobs s timeout_minutes db =
    (in_session_or_back s (λ eng. find_and_reconcile_stuck_jobs eng none timeout_minutes) db).1

-- The arguments of `run_call_scheduler_loop`, without the interval.
pub record Settings : Type 0 where
  pub batch_size : ℕ
  pub reconcile_every_ticks : ℕ
  pub reconcile_timeout_minutes : ℕ

-- One round of the loop, the number of which is given.
unfoldable pub tick : Settings → Surroundings → ℕ → Db → Db
unfolding acquire_lock dispatch_due_jobs reconcile_stuck_jobs
tick settings w number db =
    if acquire_lock w.lock
    then (let done = dispatch_due_jobs w settings.batch_size db in
        if number % settings.reconcile_every_ticks == 0
        then reconcile_stuck_jobs w.reconciliation settings.reconcile_timeout_minutes done
        else done)
    else db

-- The loop until it is cancelled, after so many rounds.
unfoldable pub run_call_scheduler_loop : Settings → (ℕ → Surroundings) → ℕ → Db → Db
unfolding tick
run_call_scheduler_loop settings around zero db = db
run_call_scheduler_loop settings around (suc n) db =
    let before = run_call_scheduler_loop settings around n db in
    let w = around (suc n) in tick settings w (suc n) (w.asleep before)
