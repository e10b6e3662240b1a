-- ===== src/Workers/Rounds.antt =====
-- What a round of the scheduler may do to the call queue: backend/app/workers/call_scheduler.py.
use realesatecrm.Base.{ℕ, suc, ◌%◌, ◌≡◌, ◌≢◌, ◌⊎◌, map, true, none, some, List, [], ◌∷◌}
use realesatecrm.Core.Errors.{DbError, Raised, raised}
use realesatecrm.Db.Rows.{Db, CallJob}
use realesatecrm.Agent.Repository.{find_and_reconcile_stuck_jobs}
use realesatecrm.Agent.Gateway.{Telephony}
use realesatecrm.Agent.Eligible.{Due, eligible_rows}
use realesatecrm.Agent.Order.{FirstOf}
use realesatecrm.Agent.Guards.{InHours}
use realesatecrm.Agent.History.{◌⇝◌, dispatch, reconcile, serve}
use realesatecrm.Workers.Scheduler.{answered, Session, Surroundings, Settings}

-- What others commit is a history of requests.
pub record Fair (s : Session) : Type 0 where
  pub others : (db : Db) → db ⇝ s.meanwhile db

pub record AllFair (w : Surroundings) : Type 0 where
  pub asleep : (db : Db) → db ⇝ w.asleep db
  pub selection : Fair w.selection
  pub dispatches : (n : ℕ) → Fair (w.dispatches n)
  pub reconciliation : Fair w.reconciliation

-- Each job of the batch is dispatched, in the order of the batch, in a session of its own and after
-- whatever others commit, unless the commit of its session is refused.
pub data Dispatched (phone : Telephony) (sessions : ℕ → Session)
    : ℕ → List CallJob → Db → Db → Type 0 where
  no_more : {n : ℕ} {db : Db} → Dispatched phone sessions n [] db db
  dispatched :
      {n : ℕ} {db mid db' : Db} {job : CallJob} {jobs : List CallJob}
      → (sessions n).commit_fault ≡ none
      → db ⇝ mid
      → Dispatched phone sessions
          (suc n)
          jobs
          (serve
            (sessions n).engine
            phone
            (dispatch job.tenant_id job.customer_id job.lead_id job.id)
            mid)
          db'
      → Dispatched phone sessions n (job ∷ jobs) db db'
  lost :
      {n : ℕ} {db mid db' : Db} {job : CallJob} {jobs : List CallJob} (e : DbError)
      → (sessions n).commit_fault ≡ some e
      → db ⇝ mid
      → Dispatched phone sessions (suc n) jobs mid db'
      → Dispatched phone sessions n (job ∷ jobs) db db'

-- The stuck jobs of all tenants are reconciled after whatever others commit, unless that raises or its
-- commit is refused.
pub data Reconciled (s : Session) (phone : Telephony) (minutes : ℕ) (db : Db) : Db → Type 0 where
  reconciled :
      {mid : Db}
      → s.commit_fault ≡ none
      → db ⇝ mid
      → Reconciled s phone minutes db (serve s.engine phone (reconcile none minutes) mid)
  refused :
      {mid : Db} (e : DbError)
      → s.commit_fault ≡ some e
      → db ⇝ mid
      → Reconciled s phone minutes db mid
  abandoned :
      {mid : Db} (e : Raised)
      → (find_and_reconcile_stuck_jobs s.engine none minutes mid).0 ≡ raised e
      → db ⇝ mid
      → Reconciled s phone minutes db mid

-- The batch: outside the calling hours empty, and else the first of the eligible rows of all tenants.
abbrev pub Chosen : ℕ → ℕ → Db → List CallJob → Type 0
Chosen now limit seen jobs =
    ((¬ InHours now) × (jobs ≡ []))
    ⊎ (InHours now
        × ((batch : List Due) × (rest : List Due) × FirstOf limit (eligible_rows now none seen)
              batch rest
            × (jobs ≡ map (λ (r : Due). r.job) batch)))

-- One round: without the lock nothing happens; with it the batch is dispatched, and the stuck jobs are
-- reconciled in every so many rounds.
pub data Round (settings : Settings) (w : Surroundings) (number : ℕ) (db : Db) : Db → Type 0 where
  skipped : w.lock ≢ answered true → Round settings w number db db
  worked :
      {seen mid db' : Db} (jobs : List CallJob)
      → w.lock ≡ answered true
      → db ⇝ seen
      → Chosen w.selection.engine.now settings.batch_size seen jobs
      → Dispatched w.phone w.dispatches 0 jobs seen mid
      → ((number % settings.reconcile_every_ticks ≡ 0)
          × Reconciled w.reconciliation w.phone settings.reconcile_timeout_minutes mid db')
        ⊎ ((number % settings.reconcile_every_ticks ≢ 0) × (db' ≡ mid))
      → Round settings w number db db'

-- So many rounds, each after whatever others commit while the loop sleeps.
pub data Rounds (settings : Settings) (around : ℕ → Surroundings) (db : Db) : ℕ → Db → Type 0 where
  not_begun : Rounds settings around db 0 db
  round :
      {n : ℕ} {mid slept db' : Db}
      → Rounds settings around db n mid
      → mid ⇝ slept
      → Round settings (around (suc n)) (suc n) slept db'
      → Rounds settings around db (suc n) db'
