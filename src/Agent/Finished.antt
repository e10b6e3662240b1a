-- ===== src/Agent/Finished.antt =====
-- `record_call_completed` where the database refuses nothing: it returns, and what it returns.
use realesatecrm.Base.{
  ℕ, ◌≡◌, refl, ap, ◌∙◌, String, Bool, true, false, not, ◌&&◌, Option, none, some, List, [], ◌∷◌,
  ◌==◌, arith, select, map, str_eq, ltb, if◌then◌else◌, Bool-cases, inl, inr,
}
use realesatecrm.Core.Errors.{AppError, DbError, Result, ok, raised, dbapi}
use realesatecrm.Db.Rows.{Db, CallJob, CallAttempt, CallRecord}
use realesatecrm.Db.Action.{
  Stmt, Engine, pure, one, one_or_none, or_raise, raise_if, execute, ◌>>=◌, ◌>>◌,
}
use realesatecrm.Db.Table.{update_where}
use realesatecrm.Db.Inversion.{>>=-ok}
use realesatecrm.Events.{event_row, publish_event}
use realesatecrm.Agent.Transitions.{is_one_of, is_allowed, validate_job_status_transition}
use realesatecrm.Agent.Repository.{is_job, claim_job_for_update, write_job}
use realesatecrm.Agent.Orchestrator.{job_not_found}
use realesatecrm.Agent.Gateway.{
  retryable_outcomes, Completion, Completed, next_state, complete_attempt, write_attempt,
  finish_job, save_summary, finish_call, record_call_completed,
}

-- An update that keeps its rows within the test shows what it writes.
select-update_where-map :
    {A : Type 0} (p : A → Bool) (f : A → A) (rs : List A)
    → ((r : A) → p r ≡ true → p (f r) ≡ true)
    → select p (update_where p f rs) ≡ map f (select p rs)
select-update_where-map p f [] k = refl
select-update_where-map p f (r ∷ rs) k = ground (arith, select-update_where-map p f rs k, k r)

-- PostgreSQL refuses none of the statements.
abbrev pub Calm : Engine → Type 0
Calm eng = (s : Stmt) (db : Db) → eng.fault s db ≡ none

pub execute-returns :
    {A : Type 0} (eng : Engine) (s : Stmt) (f : Db → A × Db) (db : Db)
    → eng.fault s db ≡ none
    → execute eng s f db ≡ (ok (f db).0, (f db).1)
execute-returns {A} eng s f db h =
    ap
      (λ (o : Option DbError). elim o as (λ _. Result A × Db) [
        | none ↦ (ok (f db).0, (f db).1)
        | some e ↦ (raised (dbapi e), db)
      ])
      h

-- Where a finished attempt leaves its job.
abbrev pub settled : CallJob → String → String
settled j outcome =
    if is_one_of outcome retryable_outcomes
    then (if ltb j.attempt_count j.max_attempts then "retry_pending" else "failed")
    else "completed"

-- The jobs and the attempts are left as they were.
abbrev pub Unchanged : Db → Db → Type 0
Unchanged db after = (after.call_jobs ≡ db.call_jobs) × (after.call_attempts ≡ db.call_attempts)

-- An attempt that has ended this way.
pub record Closed (d : Completion) (a b : CallAttempt) : Type 0 where
  pub same_id : b.id ≡ a.id
  pub same_job : b.call_job_id ≡ a.call_job_id
  pub same_number : b.attempt_number ≡ a.attempt_number
  pub completed : b.status ≡ "completed"
  pub outcome : b.outcome ≡ some d.outcome
  pub duration : b.duration_seconds ≡ d.duration_seconds
  pub failure : b.failure_code ≡ d.failure_code

module _ (eng : Engine) (calm : Calm eng) (t id : ℕ) where
  claim-returns :
      (j : CallJob) (db : Db)
      → eng.locked id db ≡ false
      → select (is_job t id) db.call_jobs ≡ j ∷ []
      → claim_job_for_update eng t id db ≡ (ok (some j), db)
  unfolding claim_job_for_update
  claim-returns j db free held = rw free (rw held refl)

  write_job-returns :
      (f : CallJob → CallJob) (j : CallJob) (db : Db)
      → ((r : CallJob) → is_job t id r ≡ true → is_job t id (f r) ≡ true)
      → select (is_job t id) db.call_jobs ≡ j ∷ []
      → write_job eng t id f db
        ≡ (ok (f j), record db { call_jobs = update_where (is_job t id) f db.call_jobs })
  unfolding write_job
  write_job-returns f j db keep held =
      let rows = update_where (is_job t id) f db.call_jobs in
      let after = record db { call_jobs = rows } in
      let stmt : Db → List CallJob × Db = λ d. (
        select (is_job t id) (update_where (is_job t id) f d.call_jobs),
        record d { call_jobs = update_where (is_job t id) f d.call_jobs },
      ) in
      let written : select (is_job t id) rows ≡ f j ∷ [] =
        select-update_where-map (is_job t id) f db.call_jobs keep
        ∙ ap (λ (l : List CallJob). map f l) held in
      >>=-ok (execute eng Stmt.update_call_job stmt) one db
        (execute-returns eng Stmt.update_call_job stmt db (calm _ db))
      ∙ ap (λ (l : List CallJob). one l after) written

  close_attempt-returns :
      (attempt_id : ℕ) (d : Completion) (a : CallAttempt) (db : Db)
      → select (λ (b : CallAttempt). b.id == attempt_id && b.tenant_id == t) db.call_attempts
        ≡ a ∷ []
      → (after : Db) × (write_attempt eng
            (λ b. b.id == attempt_id && b.tenant_id == t)
            (complete_attempt eng d)
            db
          ≡ (ok (complete_attempt eng d a ∷ []), after))
        × (after.call_jobs ≡ db.call_jobs)
        × (select (λ (b : CallAttempt). b.id == attempt_id && b.tenant_id == t) after.call_attempts
            ≡ complete_attempt eng d a ∷ [])
  unfolding write_attempt
  close_attempt-returns attempt_id d a db found =
      let hit = λ (b : CallAttempt). b.id == attempt_id && b.tenant_id == t in
      let rows = update_where hit (complete_attempt eng d) db.call_attempts in
      let written : select hit rows ≡ complete_attempt eng d a ∷ [] =
        select-update_where-map hit (complete_attempt eng d) db.call_attempts (λ r h. h)
        ∙ ap (λ (l : List CallAttempt). map (complete_attempt eng d) l) found in
      let after = record db { call_attempts = rows } in
      let stmt : Db → List CallAttempt × Db = λ x. (
        select hit (update_where hit (complete_attempt eng d) x.call_attempts),
        record x { call_attempts = update_where hit (complete_attempt eng d) x.call_attempts },
      ) in
      (
        after,
        execute-returns eng Stmt.update_attempt stmt db (calm _ db)
            ∙ ap (λ (l : List CallAttempt). (ok l, after)) written,
        refl,
        written,
      )

  save_summary-returns :
      (call : Option ℕ) (summary : _) (db : Db)
      → (after : Db) × (save_summary eng call summary db ≡ (ok tt, after)) × Unchanged db after
  unfolding save_summary
  save_summary-returns none summary db = (db, refl, (refl, refl))
  save_summary-returns (some c) none db = (db, refl, (refl, refl))
  save_summary-returns (some c) (some s) db =
      let stmt : Db → Unit {0} × Db = λ x. (
        tt,
        record x {
          calls =
              update_where (λ (r : CallRecord). r.id == c) (λ r. record r { call_summary = some s })
                x.calls;
        },
      ) in
      ((stmt db).1, execute-returns eng Stmt.update_call stmt db (calm _ db), (refl, refl))

  pub publish_event-returns :
      (event_type : String) (contact lead : Option ℕ) (db : Db)
      → (after : Db) × (publish_event eng t event_type contact lead db ≡ (ok tt, after))
        × Unchanged db after
  unfolding publish_event
  publish_event-returns event_type contact lead db =
      let stmt : Db → Unit {0} × Db =
        λ x. (tt, record x { events = event_row eng t event_type contact lead x ∷ x.events }) in
      ((stmt db).1, execute-returns eng Stmt.insert_event stmt db (calm _ db), (refl, refl))

  finish_call-returns :
      (j : CallJob) (d : Completion) (attempt : Option CallAttempt) (db : Db)
      → is_allowed j.status (next_state eng.now j d.outcome d.failure_code).next_status ≡ true
      → select (is_job t id) db.call_jobs ≡ j ∷ []
      → (after : Db) × (finish_call eng t id j d attempt db ≡ (
        ok (record {
          job = finish_job eng (next_state eng.now j d.outcome d.failure_code) j;
          attempt = attempt;
          next_status = (next_state eng.now j d.outcome d.failure_code).next_status;
        }),
        after,
      ))
        × (after.call_attempts ≡ db.call_attempts)
        × (select (is_job t id) after.call_jobs
            ≡ finish_job eng (next_state eng.now j d.outcome d.failure_code) j ∷ [])
  unfolding finish_call
  finish_call-returns j d attempt db step held =
      let n = next_state eng.now j d.outcome d.failure_code in
      let row = finish_job eng n j in
      let event = if str_eq n.next_status "completed" then "call_completed" else "call_failed" in
      let done : Completed = record { job = row; attempt = attempt; next_status = n.next_status } in
      let announce = λ (u : Unit {0}).
        publish_event eng t event (some row.customer_id) (some row.lead_id) >> pure done in
      let db1 = record db {
        call_jobs = update_where (is_job t id) (finish_job eng n) db.call_jobs;
      } in
      let (db2, summed, (jobs2, attempts2)) = save_summary-returns j.call_id d.call_summary db1 in
      let (db3, told, (jobs3, attempts3)) =
        publish_event-returns event (some row.customer_id) (some row.lead_id) db2 in
      let passed : raise_if (not (is_allowed j.status n.next_status))
            (AppError.business_rule "INVALID_STATE_TRANSITION") db
          ≡ (ok tt, db) =
        rw step refl in
      let after_write = λ (r : CallJob).
        save_summary eng j.call_id d.call_summary
        >> (publish_event eng t event (some r.customer_id) (some r.lead_id)
            >> pure (record { job = r; attempt = attempt; next_status = n.next_status })) in
      (
        db3,
        >>=-ok (validate_job_status_transition j.status n.next_status)
              (λ _. write_job eng t id (finish_job eng n) >>= after_write) db passed
            ∙ (>>=-ok (write_job eng t id (finish_job eng n)) after_write db
                  (write_job-returns (finish_job eng n) j db (λ r h. h) held)
                ∙ (>>=-ok (save_summary eng j.call_id d.call_summary) announce db1 summed
                    ∙ >>=-ok (publish_event eng t event (some row.customer_id) (some row.lead_id))
                        (λ _. pure done) db2 told)),
        attempts3 ∙ attempts2,
        ap (λ (l : List CallJob). select (is_job t id) l) (jobs3 ∙ jobs2)
            ∙ (select-update_where-map (is_job t id) (finish_job eng n) db.call_jobs (λ r h. h)
                ∙ ap (λ (l : List CallJob). map (finish_job eng n) l) held),
      )

  calling-next :
      (now : ℕ) (j : CallJob) (outcome : String) (code : Option String)
      → j.status ≡ "calling"
      → is_allowed j.status (next_state now j outcome code).next_status ≡ true
  unfolding next_state is_allowed is_one_of
  calling-next now j outcome code h =
      rw h (elim (Bool-cases (is_one_of outcome retryable_outcomes)) [
        | inr e ↦ rw e refl
        | inl e ↦ rw e (elim (Bool-cases (ltb j.attempt_count j.max_attempts)) [
          | inl f ↦ rw f refl
          | inr f ↦ rw f refl
        ])
      ])

  next-settled :
      (now : ℕ) (j : CallJob) (outcome : String) (code : Option String)
      → (next_state now j outcome code).next_status ≡ settled j outcome
  unfolding next_state
  next-settled now j outcome code = elim (Bool-cases (is_one_of outcome retryable_outcomes)) [
    | inr e ↦ rw e refl
    | inl e ↦ rw e (elim (Bool-cases (ltb j.attempt_count j.max_attempts)) [
      | inl f ↦ rw f refl
      | inr f ↦ rw f refl
    ])
  ]

  -- A call that is under way can be finished: if PostgreSQL refuses nothing and the job is not locked,
  -- `record_call_completed` returns. The attempt's row is then 'completed', with the outcome, duration
  -- and failure code that were reported; the job's row has as many attempts as before, and is
  -- 'completed', or after an outcome that may be retried 'retry_pending' while attempts are left
  -- and 'failed' else. What it returns are these two rows.
  pub record_call_completed-settles :
      (attempt_id : ℕ) (d : Completion) (j : CallJob) (a : CallAttempt) (db : Db)
      → eng.locked id db ≡ false
      → select (is_job t id) db.call_jobs ≡ j ∷ []
      → select (λ (b : CallAttempt). b.id == attempt_id && b.tenant_id == t) db.call_attempts
        ≡ a ∷ []
      → j.status ≡ "calling"
      → (done : Completed) × (after : Db) × (record_call_completed eng t id attempt_id d db
          ≡ (ok done, after))
        × ((b : CallAttempt) × (done.attempt ≡ some b)
            × (select
                  (λ (b : CallAttempt). b.id == attempt_id && b.tenant_id == t)
                  after.call_attempts
                ≡ b ∷ [])
            × Closed d a b)
        × (select (is_job t id) after.call_jobs ≡ done.job ∷ [])
        × (done.job.attempt_count ≡ j.attempt_count)
        × (done.job.status ≡ settled j d.outcome)
  unfolding record_call_completed
  record_call_completed-settles attempt_id d j a db free held found calling =
      let hit = λ (b : CallAttempt). b.id == attempt_id && b.tenant_id == t in
      let n = next_state eng.now j d.outcome d.failure_code in
      let closed = complete_attempt eng d a in
      let (db1, closing, same, closed_row) = close_attempt-returns attempt_id d a db found in
      let (db2, finishing, attempts_kept, job_row) =
        finish_call-returns j d (some closed) db1
          (calling-next eng.now j d.outcome d.failure_code calling)
          (ap (λ (l : List CallJob). select (is_job t id) l) same ∙ held) in
      let finish = λ (rows : List CallAttempt).
        one_or_none rows >>= λ attempt. finish_call eng t id j d attempt in
      (
        record { job = finish_job eng n j; attempt = some closed; next_status = n.next_status },
        db2,
        >>=-ok (claim_job_for_update eng t id)
              (λ o. or_raise o job_not_found >>= λ job.
                write_attempt eng hit (complete_attempt eng d) >>= λ rows.
                one_or_none rows >>= λ attempt. finish_call eng t id job d attempt)
              db (claim-returns j db free held)
            ∙ (>>=-ok (write_attempt eng hit (complete_attempt eng d)) finish db closing
                ∙ finishing),
        (
          closed,
          refl,
          ap (λ (l : List CallAttempt). select hit l) attempts_kept ∙ closed_row,
          record {
            same_id = refl;
            same_job = refl;
            same_number = refl;
            completed = refl;
            outcome = refl;
            duration = refl;
            failure = refl;
          },
        ),
        job_row,
        refl,
        next-settled eng.now j d.outcome d.failure_code,
      )
