-- ===== src/Agent/Guards.antt =====
-- `start_call`: what has to hold before a call is attempted.
use realesatecrm.Base.{
  ℕ, ◌<◌, ◌≤◌, ◌*◌, ◌/◌, ◌%◌, ◌≡◌, refl, sym, subst, ap, ◌∙◌, ◌⊎◌, inl, inr, String, Bool, true,
  false, Option, none, some, [], ◌∷◌, arith, select, length, leb, str_eq_iff, Bool-cases,
}
use realesatecrm.Core.Errors.{Result, ok}
use realesatecrm.Db.Rows.{Db, CallJob}
use realesatecrm.Db.Action.{Action, Engine, or_raise, pure, ◌>>=◌, ◌>>◌}
use realesatecrm.Agent.Transitions.{is_allowed, validate_job_status_transition}
use realesatecrm.Agent.Repository.{is_job, check_do_not_call, claim_job_for_update, write_job}
use realesatecrm.Agent.Orchestrator.{is_within_calling_window, job_not_found, update_job_status}
use realesatecrm.Agent.Gateway.{
  Telephony, Placement, not_placed, is_calling, start_within_limit, start_in_window, start_checked,
  start_call,
}
use realesatecrm.Agent.Logic.{claim-Held, Held, >>=-leaves}

-- From 09:00 to before 20:00 in UTC.
abbrev pub InHours : ℕ → Type 0
InHours now = (9 * 3600 ≤ now % 86400) × (now % 86400 < 20 * 3600)

-- What makes a call admissible: the job is 'ready', the customer may be called, the time of day in UTC
-- is from 09:00 to before 20:00, and the tenant has a line free.
pub record MayCall (eng : Engine) (phone : Telephony) (t id : ℕ) (db : Db) : Type 0 where
  pub job : CallJob
  pub held : select (is_job t id) db.call_jobs ≡ job ∷ []
  pub ready : job.status ≡ "ready"
  pub callable : (check_do_not_call t job.customer_id db).0 ≡ ok false
  pub in_hours : InHours eng.now
  pub line_free : length (select (is_calling t) db.call_jobs) < phone.max_concurrent_calls

pub not_hours_of : (now : ℕ) → is_within_calling_window now ≡ false → ¬ InHours now
unfolding is_within_calling_window
not_hours_of now h (from_nine, to_twenty) =
    let early : 9 ≤ now / 3600 % 24 = omega (arith, from_nine) in
    let late : now / 3600 % 24 < 20 = omega (arith, to_twenty) in ground (arith, h, early, late)

pub hours_of : (now : ℕ) → is_within_calling_window now ≡ true → InHours now
unfolding is_within_calling_window
hours_of now h =
    let hours : (9 ≤ now / 3600 % 24) × (now / 3600 % 24 < 20) = ground (arith, h) in
    (omega (arith, hours.0), omega (arith, hours.1))

only_ready : (s : String) → is_allowed s "calling" ≡ true → s ≡ "ready"
unfolding is_allowed
only_ready s h = ground (arith, str_eq_iff s "ready")

module _ (eng : Engine) (phone : Telephony) (t id : ℕ) where
  abbrev Guarded : Db → Db → Type 0
  Guarded db after = (after.call_attempts ≡ db.call_attempts) ⊎ MayCall eng phone t id db

  update_job_status-attempts :
      (s : String) (code : Option String) (db : Db)
      → (update_job_status eng t id s code db).1.call_attempts ≡ db.call_attempts
  unfolding update_job_status claim_job_for_update write_job
  update_job_status-attempts s code db = ground arith

  check-attempts :
      (customer : ℕ) (db : Db) {r : Result Bool} {db' : Db}
      → check_do_not_call t customer db ≡ (r, db')
      → db' ≡ db
  unfolding check_do_not_call
  check-attempts customer db h = ground arith

  within_limit-Guarded :
      (db : Db)
      → (length (select (is_calling t) db.call_jobs) < phone.max_concurrent_calls
          → MayCall eng phone t id db)
      → Guarded db (start_within_limit eng phone t id db).1
  unfolding start_within_limit
  within_limit-Guarded db may =
      elim (Bool-cases
        (leb phone.max_concurrent_calls (length (select (is_calling t) db.call_jobs)))) [
          | inl e ↦ inl (rw e refl)
          | inr e ↦ inr (may (ground (arith, e)))
        ]

  in_window-Guarded :
      (j : CallJob) (db : Db)
      → (is_within_calling_window eng.now ≡ true
          → length (select (is_calling t) db.call_jobs) < phone.max_concurrent_calls
          → MayCall eng phone t id db)
      → Guarded db (start_in_window eng phone t id j db).1
  unfolding start_in_window
  in_window-Guarded j db may = elim (Bool-cases (is_within_calling_window eng.now)) [
    | inl e ↦ rw e (within_limit-Guarded db (may e))
    | inr e ↦ inl (rw e refl)
  ]

  checked-Guarded :
      (j : CallJob) (is_dnc : Bool) (db : Db)
      → (is_dnc ≡ false
          → is_within_calling_window eng.now ≡ true
          → length (select (is_calling t) db.call_jobs) < phone.max_concurrent_calls
          → MayCall eng phone t id db)
      → Guarded db (start_checked eng phone t id j is_dnc db).1
  unfolding start_checked
  checked-Guarded j true db may = inl (
      >>=-leaves (λ x. x.call_attempts ≡ db.call_attempts)
        (update_job_status eng t id "cancelled" (some "DO_NOT_CALL_ACTIVE"))
        (λ cancelled. pure (not_placed "DO_NOT_CALL_ACTIVE" cancelled)) db (λ e db' h. attempts h)
        (λ a db' h. attempts h))
    where
      attempts :
          {r : Result CallJob} {db' : Db}
          → update_job_status eng t id "cancelled" (some "DO_NOT_CALL_ACTIVE") db ≡ (r, db')
          → db'.call_attempts ≡ db.call_attempts
      attempts h =
          sym (ap (λ (r : Result CallJob × Db). r.1.call_attempts) h)
          ∙ update_job_status-attempts "cancelled" (some "DO_NOT_CALL_ACTIVE") db
  checked-Guarded j false db may = in_window-Guarded j db (may refl)

  claim-attempts :
      {r : Result (Option CallJob)} (db : Db) {db' : Db}
      → claim_job_for_update eng t id db ≡ (r, db')
      → db'.call_attempts ≡ db.call_attempts
  unfolding claim_job_for_update
  claim-attempts db h = ground arith

  abbrev after_claim : Option CallJob → Action Placement
  after_claim found = or_raise found job_not_found >>= λ job.
      validate_job_status_transition job.status "calling"
      >> (check_do_not_call t job.customer_id >>= λ is_dnc. start_checked eng phone t id job is_dnc)

  claimed-Guarded :
      (o : Option CallJob) (db : Db)
      → (o ≡ none) ⊎ ((j : CallJob) × (o ≡ some j) × Held t id j db)
      → Guarded db (after_claim o db).1
  claimed-Guarded none db known = inl refl
  claimed-Guarded (some j) db (inl none_found) = absurd (cc)
  claimed-Guarded (some j) db (inr (k, same, held)) =
      elim (Bool-cases (is_allowed j.status "calling")) [
        | inr e ↦ inl (rw e refl)
        | inl e ↦ rw e (
            >>=-leaves (Guarded db) (check_do_not_call t j.customer_id)
              (start_checked eng phone t id j) db
              (λ x db' h.
                inl (ap (λ (d : Db). d.call_attempts) (check-attempts j.customer_id db h)))
              (λ is_dnc db' h.
                subst (λ (d : Db). Guarded db (start_checked eng phone t id j is_dnc d).1)
                  (sym (check-attempts j.customer_id db h))
                  (checked-Guarded j is_dnc db λ clear hours lines. record {
                    job = j;
                    held = ground (arith, held, same);
                    ready = only_ready j.status e;
                    callable = ground (arith, h, clear);
                    in_hours = hours_of eng.now hours;
                    line_free = lines;
                  })))
      ]

  -- `start_call` records an attempt, whether it returns or raises, only if the one job of the tenant
  -- with that id is 'ready', its customer is not marked do-not-call, the time of day in
  -- UTC is from 09:00 to before 20:00, and fewer of the tenant's jobs are 'calling' than the limit allows.
  pub start_call-MayCall :
      (db : Db)
      → ((start_call eng phone t id db).1.call_attempts ≡ db.call_attempts)
        ⊎ MayCall eng phone t id db
  unfolding start_call
  start_call-MayCall db =
      >>=-leaves (Guarded db) (claim_job_for_update eng t id) after_claim db
        (λ e db' h. inl (claim-attempts db h))
        (λ o db' h.
          let (same, found) = claim-Held eng t id db h in
          subst (λ (d : Db). Guarded db (after_claim o d).1) (sym same)
            (claimed-Guarded o db found))
