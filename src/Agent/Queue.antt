-- ===== src/Agent/Queue.antt =====
-- New call jobs, and the requests that make and dispatch them.
use realesatecrm.Base.{
  ℕ, ◌≡◌, ◌≢◌, refl, sym, subst, String, true, Option, none, some, List, [], ◌∷◌, ◌⊎◌, inl, inr,
  arith, All, str_eq,
}
use realesatecrm.Db.Rows.{Db, CallJob, FollowUp}
use realesatecrm.Db.Action.{Stmt, Engine, pure}
use realesatecrm.Db.Table.{update_where, coalesce}
use realesatecrm.Db.Growth.{Grows-same, Grows-update_where, added}
use realesatecrm.Events.{publish_event}
use realesatecrm.Agent.Transitions.{is_one_of}
use realesatecrm.Agent.Repository.{
  check_do_not_call, is_pending_job_of, cancel_job, cancel_pending_jobs, cancel_follow_up,
  write_follow_up,
}
use realesatecrm.Agent.Orchestrator.{CallJobCreate, job_row, insert_job, create_call_job}
use realesatecrm.Agent.Gateway.{Telephony, not_placed, prepare_call}
use realesatecrm.Agent.Tools.{schedule_call, dispatch_call, make_instant_call, or_cancelled}
use realesatecrm.Agent.Jobs.{Becomes, Becomes-refl, Born, here, waiting, ◌⟶*◌}
use realesatecrm.Agent.Steps.{cancel_job-Becomes}
use realesatecrm.Agent.Moves.{NoneNew, Evolves, Evolves-IsChange}
use realesatecrm.Agent.Prepare.{prepare_call-Evolves}
use realesatecrm.Agent.Calls.{start_call-Evolves}
use realesatecrm.Agent.Identity.{Continues, Continues-IsChange, Moves-Continues}
use realesatecrm.Agent.Keeps.{
  pure-Keeps, check_do_not_call-Keeps, publish_event-Keeps, write_follow_up-Keeps,
}
use realesatecrm.Agent.Logic.{Moves, >>=-Moves, Keeps-Moves, if-Moves}

-- PostgreSQL refuses to insert a job under an id that a job has.
unfoldable pub PrimaryKey : Engine → Type 0
PrimaryKey eng =
    (db : Db)
    → eng.fault Stmt.insert_call_job db ≡ none
    → All (λ j. j.id ≢ eng.new_id Stmt.insert_call_job db) db.call_jobs

Born-cancelled : (j : CallJob) → j.status ≡ "cancelled" → j.attempt_count ≡ 0 → Born j
unfolding is_one_of
Born-cancelled j s n = record {
  from = inr s;
  is_sound = record {
    capped = omega (arith, n);
    left = λ w.
        let pending : is_one_of "cancelled" waiting ≡ true =
          subst (λ (u : String). is_one_of u waiting ≡ true) s w in
        absurd (cc);
  };
}

Born-queued :
    (j : CallJob) → j.status ≡ "queued" → j.attempt_count ≡ 0 → j.max_attempts ≡ 3 → Born j
Born-queued j s n m = record {
  from = inl (subst (λ (u : String). "queued" ⟶* u) (sym s) here);
  is_sound = record { capped = omega (arith, n); left = λ w. omega (arith, n, m) };
}

pub dispatch_call-Evolves :
    (eng : Engine) (phone : Telephony) (t contact lead id : ℕ)
    → Moves Evolves (dispatch_call eng phone t contact lead id)
unfolding dispatch_call
dispatch_call-Evolves eng phone t contact lead id =
    >>=-Moves Evolves (publish_event eng t "call_requested" (some contact) (some lead)) _
      (Keeps-Moves Evolves _ (publish_event-Keeps eng t "call_requested" _ _))
      λ _.
        >>=-Moves Evolves (prepare_call eng t id) _ (prepare_call-Evolves eng t id)
          λ _. start_call-Evolves eng phone t id

module _ (eng : Engine) (t : ℕ) where
  cancel_pending_jobs-cases :
      (lead : ℕ) (db : Db)
      → ((cancel_pending_jobs eng t lead db).1.call_jobs ≡ db.call_jobs)
        ⊎ ((cancel_pending_jobs eng t lead db).1.call_jobs
            ≡ update_where (is_pending_job_of t lead) (cancel_job eng) db.call_jobs)
  unfolding cancel_pending_jobs
  cancel_pending_jobs-cases lead db = ground arith

  cancel_job-Becomes_each :
      (lead : ℕ) (rows : List CallJob)
      → All (λ j. is_pending_job_of t lead j ≡ true → Becomes j (cancel_job eng j)) rows
  cancel_job-Becomes_each lead [] = tt
  cancel_job-Becomes_each lead (j ∷ rows) =
      (λ e. cancel_job-Becomes eng j (ground (arith, e)), cancel_job-Becomes_each lead rows)

  cancel_pending_jobs-Evolves : (lead : ℕ) → Moves Evolves (cancel_pending_jobs eng t lead)
  unfolding Moves
  cancel_pending_jobs-Evolves lead db = elim (cancel_pending_jobs-cases lead db) [
    | inl same ↦ subst (Evolves db.call_jobs) (sym same) (Evolves-IsChange.same db.call_jobs)
    | inr done ↦ subst (Evolves db.call_jobs) (sym done) (
        Grows-update_where NoneNew Becomes Becomes-refl (is_pending_job_of t lead) (cancel_job eng)
          db.call_jobs (cancel_job-Becomes_each lead db.call_jobs))
  ]

  pub cancel_follow_up-Evolves :
      (id : ℕ) (reason : _) → Moves Evolves (cancel_follow_up eng t id reason)
  unfolding cancel_follow_up
  cancel_follow_up-Evolves id reason =
      let mark = λ (f : FollowUp). record f { status = "cancelled"; cancel_reason = reason } in
      >>=-Moves Evolves (write_follow_up eng t id mark) _
        (Keeps-Moves Evolves _ (write_follow_up-Keeps eng t id mark))
        λ row.
          >>=-Moves Evolves (cancel_pending_jobs eng t row.lead_id) _
            (cancel_pending_jobs-Evolves row.lead_id)
            λ _. Keeps-Moves Evolves (pure row) (pure-Keeps row)

  insert_job-cases :
      (d : CallJobCreate) (s : String) (at : ℕ) (code : Option String) (db : Db)
      → ((insert_job eng t d s at code db).1.call_jobs ≡ db.call_jobs)
        ⊎ ((eng.fault Stmt.insert_call_job db ≡ none)
            × ((insert_job eng t d s at code db).1.call_jobs
                ≡ job_row eng t d s at code db ∷ db.call_jobs))
  unfolding insert_job
  insert_job-cases d s at code db = ground arith

  module _ (key : PrimaryKey eng) where
    insert_job-Continues :
        (d : CallJobCreate) (s : String) (at : ℕ) (code : Option String)
        → ((db : Db) → Born (job_row eng t d s at code db))
        → Moves Continues (insert_job eng t d s at code)
    unfolding Moves Continues PrimaryKey
    insert_job-Continues d s at code born db apart = elim (insert_job-cases d s at code db) [
      | inl same ↦
          subst (Continues db.call_jobs) (sym same) (Continues-IsChange.same db.call_jobs) apart
      | inr (free, done) ↦
          subst (Continues db.call_jobs) (sym done)
            (λ h. record {
              apart = (key db free, h);
              grows = added (born db) (Grows-same Born Becomes Becomes-refl db.call_jobs);
            })
            apart
    ]

    pub create_call_job-Continues : (d : CallJobCreate) → Moves Continues (create_call_job eng t d)
    unfolding create_call_job
    create_call_job-Continues d =
        >>=-Moves Continues (check_do_not_call t d.customer_id) _
          (Keeps-Moves Continues _ (check_do_not_call-Keeps t d.customer_id))
          λ is_dnc.
            if-Moves Continues is_dnc _ _
              (insert_job-Continues d "cancelled" eng.now (some "DO_NOT_CALL_ACTIVE") λ db.
                Born-cancelled (job_row eng t d "cancelled" eng.now (some "DO_NOT_CALL_ACTIVE") db)
                  refl refl)
              (insert_job-Continues d "queued" (coalesce d.scheduled_at eng.now) none λ db.
                Born-queued (job_row eng t d "queued" (coalesce d.scheduled_at eng.now) none db)
                  refl refl refl)

    pub schedule_call-Continues : (d : CallJobCreate) → Moves Continues (schedule_call eng t d)
    unfolding schedule_call
    schedule_call-Continues d =
        >>=-Moves Continues (create_call_job eng t d) _ (create_call_job-Continues d) λ job.
          >>=-Moves Continues
            (publish_event eng t "call_scheduled" (some d.customer_id) (some d.lead_id)) _
            (Keeps-Moves Continues _ (publish_event-Keeps eng t "call_scheduled" _ _))
            λ _. Keeps-Moves Continues (pure job) (pure-Keeps job)

    pub make_instant_call-Continues :
        (phone : Telephony) (d : CallJobCreate) → Moves Continues (make_instant_call eng phone t d)
    unfolding make_instant_call
    make_instant_call-Continues phone d =
        >>=-Moves Continues (create_call_job eng t (record d { scheduled_at = none })) _
          (create_call_job-Continues (record d { scheduled_at = none }))
          λ job.
            if-Moves Continues (str_eq job.status "cancelled") _ _
              (>>=-Moves Continues
                (publish_event eng t "call_failed" (some d.customer_id) (some d.lead_id)) _
                (Keeps-Moves Continues _ (publish_event-Keeps eng t "call_failed" _ _))
                λ _.
                  Keeps-Moves Continues (pure (not_placed (or_cancelled job.last_error_code) job))
                    (pure-Keeps _))
              (Moves-Continues (dispatch_call eng phone t d.customer_id d.lead_id job.id)
                (dispatch_call-Evolves eng phone t d.customer_id d.lead_id job.id))
