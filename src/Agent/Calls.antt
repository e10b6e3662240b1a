-- ===== src/Agent/Calls.antt =====
-- `start_call` and `record_call_completed`: the jobs that they move, whatever fails.
use realesatecrm.Base.{
  ℕ, ◌≡◌, refl, sym, subst, ◌⊎◌, inl, inr, All, arith, String, Text, Bool, true, false, Option,
  none, some, List, [], ◌∷◌, select, length, leb, ◌&&◌, ◌==◌, not,
}
use realesatecrm.Core.Errors.{
  AppError, Result, ok, raised, app, dbapi, multiple_results, no_result, value_error,
}
use realesatecrm.Db.Rows.{Db, CallJob, CallAttempt, Customer}
use realesatecrm.Db.Action.{Engine, gets, one, one_or_none, pure}
use realesatecrm.Db.Table.{update_where}
use realesatecrm.Db.Growth.{Grows-update_where}
use realesatecrm.Events.{publish_event}
use realesatecrm.Agent.Transitions.{is_allowed}
use realesatecrm.Agent.Repository.{is_job, write_job, check_do_not_call}
use realesatecrm.Agent.Orchestrator.{is_within_calling_window, job_not_found, update_job_status}
use realesatecrm.Agent.Gateway.{
  Telephony, Completion, next_state, Placement, placed, not_placed, code_of, usable, phone_of,
  write_attempt, finish_job, complete_attempt, finish_call, record_call_completed, fail_placement,
  failed_placement, insert_call, link_call, record_placed, after_dialling, begin_attempt,
  insert_attempt, dial, place_sfvopi_call, begin_call, is_calling, start_within_limit,
  start_checked, start_call,
}
use realesatecrm.Agent.Keeps.{
  gets-Keeps, pure-Keeps, raised-Keeps, one-Keeps, one_or_none-Keeps, check_do_not_call-Keeps,
  publish_event-Keeps, save_summary-Keeps, insert_attempt-Keeps, insert_call-Keeps,
  write_attempt-Keeps,
}
use realesatecrm.Agent.Jobs.{Becomes, Becomes-refl, here}
use realesatecrm.Agent.Steps.{begin_attempt-Becomes, finish_job-Becomes, cancelled-Becomes}
use realesatecrm.Agent.Moves.{
  NoneNew, Evolves, Evolves-IsChange, not-false, write_job-MovesFrom, update_job_status-MovesFrom,
}
use realesatecrm.Agent.Logic.{
  Moves, MovesFrom, >>=-Keeps, >>=-Moves, >>=-MovesFrom, Keeps->>=, Keeps-Moves, Keeps-MovesFrom,
  raise_if->>=, claim->>=, if-MovesFrom,
}

module _ (eng : Engine) (t id : ℕ) where
  abbrev At : CallJob → List CallJob → Type 0
  At j xs = select (is_job t id) xs ≡ j ∷ []

  finish_call-Evolves :
      (j : CallJob) (d : Completion) (attempt : Option CallAttempt)
      → MovesFrom Evolves (At j) (finish_call eng t id j d attempt)
  unfolding finish_call
  finish_call-Evolves j d attempt =
      let n = next_state eng.now j d.outcome d.failure_code in
      raise_if->>= Evolves (At j) _ _ _ λ passed.
        >>=-MovesFrom Evolves _ _ (At j)
          (write_job-MovesFrom eng t id (At j) (finish_job eng n) j λ xs found.
            (found, finish_job-Becomes eng j eng.now d.outcome d.failure_code (not-false _ passed)))
          λ row. Keeps-Moves Evolves _ (
            >>=-Keeps _ _ (save_summary-Keeps eng j.call_id d.call_summary)
              λ _. >>=-Keeps _ _ (publish_event-Keeps eng t _ _ _) λ _. pure-Keeps _)

  pub record_call_completed-Evolves :
      (attempt_id : ℕ) (d : Completion)
      → Moves Evolves (record_call_completed eng t id attempt_id d)
  unfolding record_call_completed
  record_call_completed-Evolves attempt_id d = claim->>= Evolves eng t id job_not_found _ λ j.
      Keeps->>= Evolves
        (write_attempt eng (λ a. a.id == attempt_id && a.tenant_id == t) (complete_attempt eng d)) _
        (At j)
        (write_attempt-Keeps eng (λ a. a.id == attempt_id && a.tenant_id == t)
          (complete_attempt eng d))
        λ rows.
          Keeps->>= Evolves (one_or_none rows) _ (At j) (one_or_none-Keeps rows)
            λ attempt. finish_call-Evolves j d attempt

module _ (eng : Engine) (t : ℕ) where
  abbrev link : ℕ → CallJob → CallJob
  link call_id j = record j { call_id = some call_id; updated_at = eng.now }

  link_call-cases :
      (job_id call_id : ℕ) (db : Db)
      → ((link_call eng t job_id call_id db).1.call_jobs ≡ db.call_jobs)
        ⊎ ((link_call eng t job_id call_id db).1.call_jobs
            ≡ update_where (is_job t job_id) (link call_id) db.call_jobs)
  unfolding link_call
  link_call-cases job_id call_id db = ground arith

  link-Becomes : (call_id : ℕ) (j : CallJob) → Becomes j (link call_id j)
  link-Becomes call_id j = record {
    same_id = refl;
    same_tenant = refl;
    same_lead = refl;
    same_customer = refl;
    same_limit = refl;
    path = here;
    more = omega arith;
    sound = λ h. record { capped = h.capped; left = h.left };
  }

  link-Becomes_each :
      (job_id call_id : ℕ) (rows : List CallJob)
      → All (λ j. is_job t job_id j ≡ true → Becomes j (link call_id j)) rows
  link-Becomes_each job_id call_id [] = tt
  link-Becomes_each job_id call_id (j ∷ rows) =
      (λ _. link-Becomes call_id j, link-Becomes_each job_id call_id rows)

  link_call-Evolves : (job_id call_id : ℕ) → Moves Evolves (link_call eng t job_id call_id)
  unfolding Moves
  link_call-Evolves job_id call_id db = elim (link_call-cases job_id call_id db) [
    | inl same ↦ subst (Evolves db.call_jobs) (sym same) (Evolves-IsChange.same db.call_jobs)
    | inr done ↦ subst (Evolves db.call_jobs) (sym done) (
        Grows-update_where NoneNew Becomes Becomes-refl (is_job t job_id) (link call_id)
          db.call_jobs (link-Becomes_each job_id call_id db.call_jobs))
  ]

  fail_placement-Evolves :
      (j : CallJob) (a : CallAttempt) (code : String)
      → Moves Evolves (fail_placement eng t j a code)
  unfolding fail_placement
  fail_placement-Evolves j a code =
      >>=-Moves Evolves (record_call_completed eng t j.id a.id (failed_placement code)) _
        (record_call_completed-Evolves eng t j.id a.id (failed_placement code))
        λ completion. Keeps-Moves Evolves (pure (not_placed code completion.job)) (pure-Keeps _)

  record_placed-Evolves :
      (j : CallJob) (a : CallAttempt) (from_number to_number : Text) (uuid : ℕ)
      → Moves Evolves (record_placed eng t j a from_number to_number uuid)
  unfolding record_placed
  record_placed-Evolves j a from_number to_number uuid =
      let noted = λ (b : CallAttempt). record b { provider_call_id = some uuid } in
      >>=-Moves Evolves (insert_call eng t j uuid from_number to_number) _
        (Keeps-Moves Evolves _ (insert_call-Keeps eng t j uuid from_number to_number))
        λ call_id.
          >>=-Moves Evolves (link_call eng t j.id call_id) _ (link_call-Evolves j.id call_id) λ _.
            >>=-Moves Evolves (write_attempt eng (λ b. b.id == a.id) noted) _
              (Keeps-Moves Evolves _ (write_attempt-Keeps eng (λ b. b.id == a.id) noted))
              λ rows.
                >>=-Moves Evolves (one rows) _ (Keeps-Moves Evolves _ (one-Keeps rows))
                  λ updated. Keeps-Moves Evolves (pure (placed j updated)) (pure-Keeps _)

  after_dialling-Evolves :
      (j : CallJob) (a : CallAttempt) (from_number to_number : Text) (r : Result ℕ)
      → Moves Evolves (after_dialling eng t j a from_number to_number r)
  unfolding after_dialling
  after_dialling-Evolves j a from_number to_number (ok uuid) =
      record_placed-Evolves j a from_number to_number uuid
  after_dialling-Evolves j a from_number to_number (raised (app e)) =
      fail_placement-Evolves j a (code_of e)
  after_dialling-Evolves j a from_number to_number (raised (dbapi e)) =
      Keeps-Moves Evolves _ (raised-Keeps Placement _)
  after_dialling-Evolves j a from_number to_number (raised multiple_results) =
      Keeps-Moves Evolves _ (raised-Keeps Placement _)
  after_dialling-Evolves j a from_number to_number (raised no_result) =
      Keeps-Moves Evolves _ (raised-Keeps Placement _)
  after_dialling-Evolves j a from_number to_number (raised value_error) =
      Keeps-Moves Evolves _ (raised-Keeps Placement _)

module _ (eng : Engine) (phone : Telephony) (t : ℕ) where
  dial-Evolves :
      (j : CallJob) (a : CallAttempt) (from_number to_number : Option Text)
      → Moves Evolves (dial eng phone t j a from_number to_number)
  unfolding dial Moves
  dial-Evolves j a (some f) (some n) db =
      after_dialling-Evolves eng t j a f n (phone.initiate f n db) db
  dial-Evolves j a none to_number db =
      fail_placement-Evolves eng t j a "SFVOPI_MISSING_PHONE_CONFIG" db
  dial-Evolves j a (some f) none db =
      fail_placement-Evolves eng t j a "SFVOPI_MISSING_PHONE_CONFIG" db

  place_sfvopi_call-Evolves :
      (j : CallJob) (a : CallAttempt) → Moves Evolves (place_sfvopi_call eng phone t j a)
  unfolding place_sfvopi_call
  place_sfvopi_call-Evolves j a =
      let own = λ (db : Db).
        select (λ (c : Customer). c.id == j.customer_id && c.tenant_id == t) db.customers in
      >>=-Moves Evolves (gets own) _ (Keeps-Moves Evolves _ (gets-Keeps own)) λ rows.
        >>=-Moves Evolves (one_or_none rows) _ (Keeps-Moves Evolves _ (one_or_none-Keeps rows))
          λ customer. dial-Evolves j a (usable phone.from_number) (usable (phone_of customer))

  begin_call-Evolves :
      (id : ℕ) (j : CallJob)
      → is_allowed j.status "calling" ≡ true
      → MovesFrom Evolves (At eng t id j) (begin_call eng phone t id)
  unfolding begin_call
  begin_call-Evolves id j step =
      >>=-MovesFrom Evolves (write_job eng t id (begin_attempt eng)) _ (At eng t id j)
        (write_job-MovesFrom eng t id (At eng t id j) (begin_attempt eng) j
          λ xs found. (found, begin_attempt-Becomes eng j step))
        λ row.
          >>=-Moves Evolves (insert_attempt eng t id row) _
            (Keeps-Moves Evolves _ (insert_attempt-Keeps eng t id row))
            λ a.
              >>=-Moves Evolves
                (publish_event eng t "call_started" (some row.customer_id) (some row.lead_id)) _
                (Keeps-Moves Evolves _ (publish_event-Keeps eng t "call_started" _ _))
                λ _. place_sfvopi_call-Evolves row a

  start_within_limit-Evolves :
      (id : ℕ) (j : CallJob)
      → is_allowed j.status "calling" ≡ true
      → MovesFrom Evolves (At eng t id j) (start_within_limit eng phone t id)
  unfolding start_within_limit
  start_within_limit-Evolves id j step =
      let count = λ (db : Db). length (select (is_calling t) db.call_jobs) in
      Keeps->>= Evolves (gets count) _ (At eng t id j) (gets-Keeps count) λ active.
        raise_if->>= Evolves (At eng t id j) (leb phone.max_concurrent_calls active)
          (AppError.forbidden "CONCURRENCY_LIMIT_REACHED") (begin_call eng phone t id)
          λ _. begin_call-Evolves id j step

  start_checked-Evolves :
      (id : ℕ) (j : CallJob) (is_dnc : Bool)
      → is_allowed j.status "calling" ≡ true
      → MovesFrom Evolves (At eng t id j) (start_checked eng phone t id j is_dnc)
  unfolding start_checked
  start_checked-Evolves id j true step =
      >>=-MovesFrom Evolves (update_job_status eng t id "cancelled" (some "DO_NOT_CALL_ACTIVE")) _
        (At eng t id j)
        (update_job_status-MovesFrom eng t id (At eng t id j) "cancelled"
          (some "DO_NOT_CALL_ACTIVE")
          λ k xs _ _ allowed. cancelled-Becomes eng k (some "DO_NOT_CALL_ACTIVE") allowed)
        λ cancelled.
          Keeps-Moves Evolves (pure (not_placed "DO_NOT_CALL_ACTIVE" cancelled)) (pure-Keeps _)
  start_checked-Evolves id j false step =
      if-MovesFrom Evolves (At eng t id j) (not (is_within_calling_window eng.now)) _ _
        (Keeps-MovesFrom Evolves (At eng t id j) (pure (not_placed "OUTSIDE_CALLING_WINDOW" j))
          (pure-Keeps _))
        (start_within_limit-Evolves id j step)

  pub start_call-Evolves : (id : ℕ) → Moves Evolves (start_call eng phone t id)
  unfolding start_call
  start_call-Evolves id = claim->>= Evolves eng t id job_not_found _ λ j.
      raise_if->>= Evolves (At eng t id j) _ _ _ λ passed.
        Keeps->>= Evolves (check_do_not_call t j.customer_id) _ (At eng t id j)
          (check_do_not_call-Keeps t j.customer_id)
          λ is_dnc. start_checked-Evolves id j is_dnc (not-false _ passed)
