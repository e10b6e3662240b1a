-- ===== src/Agent/History.antt =====
-- The histories of the call queue: the requests that touch it, in any order and with any failures.
use realesatecrm.Base.{
  ℕ, ◌≡◌, ◌≤◌, ◌∙◌, Text, Bool, true, Option, All, List, [], ◌∷◌, ◌==◌, ==_iff, select, Bool-cases,
  inl, inr, subst, arith,
}
use realesatecrm.Db.Rows.{Db, CallJob}
use realesatecrm.Db.Table.{select_head}
use realesatecrm.Db.Action.{Engine}
use realesatecrm.Db.Growth.{Grows, empty, kept, added, Grows-All}
use realesatecrm.Agent.Transitions.{is_one_of}
use realesatecrm.Agent.Repository.{find_and_reconcile_stuck_jobs, cancel_follow_up}
use realesatecrm.Agent.Orchestrator.{CallJobCreate}
use realesatecrm.Agent.Gateway.{
  Telephony, Completion, prepare_call, start_call, record_call_completed,
}
use realesatecrm.Agent.Tools.{schedule_call, dispatch_call, make_instant_call}
use realesatecrm.Agent.Jobs.{Becomes, Born, Sound, finished, finished-⟶*}
use realesatecrm.Agent.Calls.{start_call-Evolves, record_call_completed-Evolves}
use realesatecrm.Agent.Prepare.{prepare_call-Evolves}
use realesatecrm.Agent.Identity.{
  Distinct, Distinct-Only, Only, Lives, Continues, Continues-IsChange, Moves-Continues,
}
use realesatecrm.Agent.Reconcile.{reconcile-Continues}
use realesatecrm.Agent.Queue.{
  PrimaryKey, cancel_follow_up-Evolves, schedule_call-Continues, make_instant_call-Continues,
  dispatch_call-Evolves,
}
use realesatecrm.Agent.Logic.{Moves}

-- The requests.
pub data Request : Type 0 where
  schedule : ℕ → CallJobCreate → Request
  instant : ℕ → CallJobCreate → Request
  dispatch : ℕ → ℕ → ℕ → ℕ → Request
  prepare : ℕ → ℕ → Request
  start : ℕ → ℕ → Request
  complete : ℕ → ℕ → ℕ → Completion → Request
  cancel : ℕ → ℕ → Option Text → Request
  reconcile : Option ℕ → ℕ → Request

-- What a request leaves, whether it returned or raised. Each has its own engine: its clock, its ids and
-- its refusals.
unfoldable pub serve : Engine → Telephony → Request → Db → Db
unfolding schedule_call make_instant_call dispatch_call prepare_call start_call
    record_call_completed cancel_follow_up find_and_reconcile_stuck_jobs
serve eng phone (schedule t d) db = (schedule_call eng t d db).1
serve eng phone (instant t d) db = (make_instant_call eng phone t d db).1
serve eng phone (dispatch t contact lead id) db = (dispatch_call eng phone t contact lead id db).1
serve eng phone (prepare t id) db = (prepare_call eng t id db).1
serve eng phone (start t id) db = (start_call eng phone t id db).1
serve eng phone (complete t id attempt d) db = (record_call_completed eng t id attempt d db).1
serve eng phone (cancel t id reason) db = (cancel_follow_up eng t id reason db).1
serve eng phone (reconcile scope minutes) db =
    (find_and_reconcile_stuck_jobs eng scope minutes db).1

-- Databases that a history of requests leads to.
infix 40 ◌⇝◌
pub data ◌⇝◌ (db : Db) : Db → Type 0 where
  start_here : db ⇝ db
  next :
      {db' : Db} (eng : Engine) (phone : Telephony) (r : Request)
      → db ⇝ db'
      → PrimaryKey eng
      → db ⇝ serve eng phone r db'

serve-Continues :
    (eng : Engine) (phone : Telephony) (r : Request) (db : Db)
    → PrimaryKey eng
    → Continues db.call_jobs (serve eng phone r db).call_jobs
unfolding serve Moves
serve-Continues eng phone (schedule t d) db key = schedule_call-Continues eng t key d db
serve-Continues eng phone (instant t d) db key = make_instant_call-Continues eng t key phone d db
serve-Continues eng phone (dispatch t contact lead id) db key =
    Moves-Continues (dispatch_call eng phone t contact lead id)
      (dispatch_call-Evolves eng phone t contact lead id) db
serve-Continues eng phone (prepare t id) db key =
    Moves-Continues (prepare_call eng t id) (prepare_call-Evolves eng t id) db
serve-Continues eng phone (start t id) db key =
    Moves-Continues (start_call eng phone t id) (start_call-Evolves eng phone t id) db
serve-Continues eng phone (complete t id attempt d) db key =
    Moves-Continues (record_call_completed eng t id attempt d)
      (record_call_completed-Evolves eng t id attempt d) db
serve-Continues eng phone (cancel t id reason) db key =
    Moves-Continues (cancel_follow_up eng t id reason) (cancel_follow_up-Evolves eng t id reason) db
serve-Continues eng phone (reconcile scope minutes) db key =
    reconcile-Continues eng scope minutes db

-- Along every history from call jobs with ids of their own, where PostgreSQL lets no job in under the id of
-- another, the ids stay apart, no job goes away or changes its tenant, lead, customer or limit,
-- the attempts of a job never go down, its state moves only along paths of the transition matrix and
-- of the reconciliation, which moves a job that is 'ready', and a new job is 'cancelled' or in a
-- state that such a path leads to from 'queued'.
pub ⇝-Lives : {db db' : Db} → db ⇝ db' → Distinct db.call_jobs → Lives db.call_jobs db'.call_jobs
unfolding Continues
⇝-Lives {db} start_here apart = Continues-IsChange.same db.call_jobs apart
⇝-Lives {db} (next {db' = mid} eng phone r before key) apart =
    Continues-IsChange.chain db.call_jobs mid.call_jobs (serve eng phone r mid).call_jobs
      (⇝-Lives before) (serve-Continues eng phone r mid key) apart

-- Along every history from call jobs with ids of their own, where PostgreSQL lets no job in under the id of
-- another: if no job has had more attempts than it is allowed and each that waits for an attempt
-- has one left at the start, the same is true of all call jobs at the end.
pub ⇝-Sound :
    {db db' : Db}
    → db ⇝ db'
    → Distinct db.call_jobs
    → All Sound db.call_jobs
    → All Sound db'.call_jobs
⇝-Sound {db} {db'} h apart sound =
    Grows-All Born Becomes Sound (λ a b r. r.sound) (λ b n. n.is_sound) db.call_jobs db'.call_jobs
      (⇝-Lives h apart).grows sound

-- A row that a test finds has a later version, of which holds what holds of all rows.
later_row :
    (P : CallJob → Type 0) (q : CallJob → Bool) {xs ys rest : List CallJob} {j : CallJob}
    → Grows Born Becomes xs ys
    → All P ys
    → select q xs ≡ j ∷ rest
    → (b : CallJob) × Becomes j b × P b
later_row P q empty h e = absurd (cc)
later_row P q (added n g) h e = later_row P q g h.1 e
later_row P q {rest = rest} {j = j} (kept {a = a} {b = b} r g) h e = elim (Bool-cases (q a)) [
  | inl hit ↦ (b, subst (λ (x : CallJob). Becomes x b) (ground arith) r, h.0)
  | inr miss ↦ later_row P q {rest = rest} g h.1 (ground (arith, miss, e))
]

-- Along every history from call jobs with ids of their own, where PostgreSQL lets no job in under the id of
-- another, the one job of an id is still the one job of that id at the end, with the same tenant,
-- lead, customer and limit and no fewer attempts, and if it was 'completed', 'failed' or 'cancelled'
-- it still has that state.
pub ⇝-finished :
    {db db' : Db} (id : ℕ) (j : CallJob)
    → db ⇝ db'
    → Distinct db.call_jobs
    → select (λ (k : CallJob). k.id == id) db.call_jobs ≡ j ∷ []
    → (b : CallJob) × (select (λ (k : CallJob). k.id == id) db'.call_jobs ≡ b ∷ [])
      × (b.tenant_id ≡ j.tenant_id)
      × (b.lead_id ≡ j.lead_id)
      × (b.customer_id ≡ j.customer_id)
      × (b.max_attempts ≡ j.max_attempts)
      × (j.attempt_count ≤ b.attempt_count)
      × (is_one_of j.status finished ≡ true → b.status ≡ j.status)
⇝-finished {db} {db'} id j h apart found =
    let lives = ⇝-Lives h apart in
    let (b, later, only) =
      later_row (Only db'.call_jobs) (λ (k : CallJob). k.id == id) lives.grows
        (Distinct-Only db'.call_jobs lives.apart) found in
    let its : j.id ≡ id =
      (==_iff j.id id).0 (select_head (λ (k : CallJob). k.id == id) db.call_jobs j [] found) in
    (
      b,
      subst (λ (n : ℕ). select (λ (k : CallJob). k.id == n) db'.call_jobs ≡ b ∷ [])
          (later.same_id ∙ its) only,
      later.same_tenant,
      later.same_lead,
      later.same_customer,
      later.same_limit,
      later.more,
      finished-⟶* later.path,
    )
