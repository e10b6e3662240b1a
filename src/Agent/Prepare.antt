-- ===== src/Agent/Prepare.antt =====
-- `prepare_call`: the jobs that it moves, whatever fails.
use realesatecrm.Base.{
  ℕ, ◌≡◌, ◌≢◌, sym, subst, String, true, Option, none, some, List, [], ◌∷◌, arith, select, All,
  Bool-cases, inl, inr,
}
use realesatecrm.Core.Errors.{AppError, ok}
use realesatecrm.Db.Rows.{Db, CallJob}
use realesatecrm.Db.Action.{Engine, gets, one_or_none, or_raise, pure, ◌>>◌}
use realesatecrm.Db.Table.{update_where}
use realesatecrm.Agent.Repository.{
  is_job, claim_job_for_update, write_job, is_call_lead, save_agent_call_context_snapshot,
}
use realesatecrm.Agent.Orchestrator.{job_not_found, set_status, update_job_status}
use realesatecrm.Agent.Gateway.{build_context, prepare_call}
use realesatecrm.Agent.Keeps.{
  gets-Keeps, pure-Keeps, one_or_none-Keeps, or_raise-Keeps, save_snapshot-Keeps,
}
use realesatecrm.Agent.Steps.{preparing-Becomes, ready-Becomes, retry-Becomes}
use realesatecrm.Agent.Moves.{
  Evolves, Evolves-IsChange, update_job_status-MovesFrom, update_job_status-cases,
}
use realesatecrm.Agent.Logic.{
  IsChange, Moves, MovesFrom, >>=-MovesFrom, >>=-MovesThen, Keeps->>=, Keeps-Moves, raise_if->>=,
  claim->>=, on_error-MovesFrom, Moves-MovesFrom,
}

-- No job of that id is being called.
abbrev Quiet : ℕ → ℕ → List CallJob → Type 0
Quiet t id xs = All (λ r. is_job t id r ≡ true → r.status ≢ "calling") xs

unfoldable StaysQuiet : ℕ → ℕ → List CallJob → List CallJob → Type 0
StaysQuiet t id xs ys = Quiet t id xs → Quiet t id ys

StaysQuiet-IsChange : (t id : ℕ) → IsChange (StaysQuiet t id)
unfolding StaysQuiet
StaysQuiet-IsChange t id = record { same = λ xs h. h; chain = λ xs ys zs p q h. q (p h) }

-- The block that is tried writes the state of the job once, at its end.
module _ (R : List CallJob → List CallJob → Type 0) ⦃change : IsChange R⦄ where
  build_context-MovesFrom :
      (P : List CallJob → Type 0) (eng : Engine) (t id : ℕ) (job : CallJob)
      → MovesFrom R P (update_job_status eng t id "ready" none)
      → MovesFrom R P (build_context eng t id job)
  unfolding build_context
  build_context-MovesFrom P eng t id job ready =
      Keeps->>= R (gets (λ db. select (is_call_lead (some t) job.lead_id db) db.leads)) _ P
        (gets-Keeps _)
        λ rows. Keeps->>= R (one_or_none rows) _ P (one_or_none-Keeps rows) λ lead.
          Keeps->>= R (or_raise lead (AppError.not_found "LEAD_NOT_FOUND")) _ P
            (or_raise-Keeps lead _)
            λ found.
              Keeps->>= R (save_agent_call_context_snapshot eng t id job.lead_id job.customer_id) _
                P (save_snapshot-Keeps eng t id job.lead_id job.customer_id) λ saved. ready

module _ (eng : Engine) (t id : ℕ) where
  Quiet-update :
      (s : String) (code : Option String) (xs : List CallJob)
      → s ≢ "calling"
      → Quiet t id xs
      → Quiet t id (update_where (is_job t id) (set_status eng s code) xs)
  Quiet-update s code [] calm quiet = tt
  Quiet-update s code (r ∷ rs) calm quiet = elim (Bool-cases (is_job t id r)) [
    | inl e ↦ rw e (λ _. calm, Quiet-update s code rs calm quiet.1)
    | inr e ↦ rw e (quiet.0, Quiet-update s code rs calm quiet.1)
  ]

  -- Once the job is being prepared, none of that id is being called.
  Quiet-preparing :
      (xs : List CallJob)
      → Quiet t id (update_where (is_job t id) (set_status eng "preparing" none) xs)
  Quiet-preparing [] = tt
  Quiet-preparing (r ∷ rs) = elim (Bool-cases (is_job t id r)) [
    | inl e ↦ rw e (λ _ h. cc, Quiet-preparing rs)
    | inr e ↦ rw e (λ k. absurd (cc), Quiet-preparing rs)
  ]

  update_job_status-Quiet :
      (s : String) (code : Option String)
      → s ≢ "calling"
      → Moves
          (StaysQuiet t id)
          ⦃change = StaysQuiet-IsChange t id⦄
          (update_job_status eng t id s code)
  unfolding Moves StaysQuiet
  update_job_status-Quiet s code calm db quiet = elim (update_job_status-cases eng t id s code db) [
    | inl same ↦ subst (Quiet t id) (sym same) quiet
    | inr done ↦ subst (Quiet t id) (sym done) (Quiet-update s code db.call_jobs calm quiet)
  ]

  Quiet-at :
      (j : CallJob) (xs : List CallJob)
      → select (is_job t id) xs ≡ j ∷ []
      → Quiet t id xs
      → j.status ≢ "calling"
  Quiet-at j (x ∷ xs) found quiet = elim (Bool-cases (is_job t id x)) [
    | inl e ↦
        let same : x ≡ j = ground (arith, found) in
        subst (λ (r : CallJob). r.status ≢ "calling") same (quiet.0 e)
    | inr e ↦ Quiet-at j xs (ground (arith, found)) quiet.1
  ]
  Quiet-at j [] found quiet = absurd (cc)

  update_job_status-done :
      (s : String) (code : Option String) (db db' : Db) (j : CallJob)
      → update_job_status eng t id s code db ≡ (ok j, db')
      → db'.call_jobs ≡ update_where (is_job t id) (set_status eng s code) db.call_jobs
  unfolding update_job_status claim_job_for_update write_job
  update_job_status-done s code db db' j h = ground arith

  after_preparing :
      (db db' : Db) (j : CallJob)
      → update_job_status eng t id "preparing" none db ≡ (ok j, db')
      → Quiet t id db'.call_jobs
  after_preparing db db' j h =
      subst (Quiet t id) (sym (update_job_status-done "preparing" none db db' j h))
        (Quiet-preparing db.call_jobs)

  build_context-Quiet :
      (job : CallJob) (db : Db)
      → Quiet t id db.call_jobs
      → Quiet t id (build_context eng t id job db).1.call_jobs
  unfolding Moves MovesFrom StaysQuiet
  build_context-Quiet job db =
      build_context-MovesFrom (StaysQuiet t id) ⦃change = StaysQuiet-IsChange t id⦄ (λ _. Unit {0})
        eng t id job
        (Moves-MovesFrom (StaysQuiet t id) ⦃change = StaysQuiet-IsChange t id⦄ (λ _. Unit {0})
          (update_job_status eng t id "ready" none)
          (update_job_status-Quiet "ready" none (λ h. cc)))
        db tt

  build_context-Evolves :
      (job : CallJob) → MovesFrom Evolves (Quiet t id) (build_context eng t id job)
  build_context-Evolves job = build_context-MovesFrom Evolves (Quiet t id) eng t id job (
      update_job_status-MovesFrom eng t id (Quiet t id) "ready" none
        λ j xs quiet found step. ready-Becomes eng j none step)

  mark_failed-Evolves :
      MovesFrom Evolves
        (Quiet t id)
        (update_job_status eng t id "retry_pending" (some "PREPARATION_FAILED") >> pure tt)
  mark_failed-Evolves =
      >>=-MovesFrom Evolves _ (λ _. pure tt) (Quiet t id)
        (update_job_status-MovesFrom eng t id (Quiet t id) "retry_pending"
          (some "PREPARATION_FAILED")
          λ j xs quiet found step.
            retry-Becomes eng j (some "PREPARATION_FAILED") (Quiet-at j xs found quiet) step)
        (λ j. Keeps-Moves Evolves _ (pure-Keeps tt))

  pub prepare_call-Evolves : Moves Evolves (prepare_call eng t id)
  unfolding prepare_call
  prepare_call-Evolves = claim->>= Evolves eng t id job_not_found _ λ job.
      raise_if->>= Evolves (λ xs. select (is_job t id) xs ≡ job ∷ []) _ _ _
        λ passed.
          >>=-MovesThen Evolves (update_job_status eng t id "preparing" none) _
            (λ xs. select (is_job t id) xs ≡ job ∷ []) (Quiet t id)
            (update_job_status-MovesFrom eng t id (λ xs. select (is_job t id) xs ≡ job ∷ [])
              "preparing" none λ j xs _ found step. preparing-Becomes eng j none step)
            (λ db db' j _ h. after_preparing db db' j h)
            λ _.
              on_error-MovesFrom Evolves (build_context eng t id job) _ (Quiet t id)
                (build_context-Evolves job) (build_context-Quiet job) mark_failed-Evolves
