-- ===== src/Agent/Refused.antt =====
-- A dialling that Superfone refuses, where the database refuses nothing.
use realesatecrm.Base.{
  ℕ, Text, ◌≡◌, ap, ◌∙◌, String, false, ◌&&◌, some, [], ◌∷◌, ◌==◌, select, ltb, if◌then◌else◌,
}
use realesatecrm.Core.Errors.{AppError, Result, ok, raised, app}
use realesatecrm.Db.Rows.{Db, CallJob, CallAttempt}
use realesatecrm.Db.Action.{Engine, pure}
use realesatecrm.Db.Inversion.{>>=-ok}
use realesatecrm.Agent.Transitions.{is_one_of}
use realesatecrm.Agent.Repository.{is_job}
use realesatecrm.Agent.Gateway.{
  Telephony, not_placed, code_of, failed_placement, record_call_completed, fail_placement,
  after_dialling, dial,
}
use realesatecrm.Agent.Finished.{Calm, record_call_completed-settles}

module _ (eng : Engine) (calm : Calm eng) (t : ℕ) (j : CallJob) (a : CallAttempt) (db : Db)
    (free : eng.locked j.id db ≡ false) (held : select (is_job t j.id) db.call_jobs ≡ j ∷ [])
    (found : select (λ (b : CallAttempt). b.id == a.id && b.tenant_id == t) db.call_attempts
      ≡ a ∷ [])
    (calling : j.status ≡ "calling") where
  fail_placement-settles :
      (code : String)
      → (k : CallJob) × (after : Db) × (fail_placement eng t j a code db
          ≡ (ok (not_placed code k), after))
        × (k.attempt_count ≡ j.attempt_count)
        × (k.status ≡ (if ltb j.attempt_count j.max_attempts then "retry_pending" else "failed"))
  unfolding fail_placement is_one_of
  fail_placement-settles code =
      let (done, after, returns, _, _, count, status) =
        record_call_completed-settles eng calm t j.id a.id (failed_placement code) j a db free held
          found calling in
      (
        done.job,
        after,
        >>=-ok (record_call_completed eng t j.id a.id (failed_placement code))
            (λ completion. pure (not_placed code completion.job)) db returns,
        count,
        status,
      )

  -- If PostgreSQL refuses nothing and the job, which is being called, is not locked, a dialling that
  -- Superfone refuses with an error of the program raises nothing: it returns the code of the error,
  -- and the job waits for another attempt while one is left, and has failed else.
  pub dial-refused :
      (phone : Telephony) (from_number to_number : Text) (e : AppError)
      → phone.initiate from_number to_number db ≡ raised (app e)
      → (k : CallJob) × (after : Db) × (dial eng phone t j a (some from_number) (some to_number) db
          ≡ (ok (not_placed (code_of e) k), after))
        × (k.attempt_count ≡ j.attempt_count)
        × (k.status ≡ (if ltb j.attempt_count j.max_attempts then "retry_pending" else "failed"))
  unfolding dial after_dialling
  dial-refused phone from_number to_number e refused =
      let (k, after, returns, count, status) = fail_placement-settles (code_of e) in
      (
        k,
        after,
        ap (λ (r : Result ℕ). after_dialling eng t j a from_number to_number r db) refused
            ∙ returns,
        count,
        status,
      )
