-- ===== src/Agent/Steps.antt =====
-- How the statements on call jobs change a row.
use realesatecrm.Base.{
  ℕ, ◌<◌, ◌≡◌, ◌≢◌, refl, ◌⊎◌, inl, inr, String, true, false, Option, [], ◌∷◌, arith, str_eq_iff,
  ltb, Bool-cases,
}
use realesatecrm.Db.Rows.{CallJob}
use realesatecrm.Db.Action.{Engine}
use realesatecrm.Agent.Transitions.{is_one_of, is_allowed}
use realesatecrm.Agent.Repository.{time_out, new_status_of, cancel_job}
use realesatecrm.Agent.Orchestrator.{set_status}
use realesatecrm.Agent.Gateway.{next_state, finish_job, begin_attempt}
use realesatecrm.Agent.Jobs.{
  ◌⟶◌, allowed, reset, give_up, here, then, waiting, Sound, Becomes, is_one_of-cases,
}

waits-preparing : (s : String) → is_allowed s "preparing" ≡ true → is_one_of s waiting ≡ true
unfolding is_allowed
waits-preparing s h = ground arith

waits-ready : (s : String) → is_allowed s "ready" ≡ true → is_one_of s waiting ≡ true
unfolding is_allowed
waits-ready s h = ground arith

waits-calling : (s : String) → is_allowed s "calling" ≡ true → is_one_of s waiting ≡ true
unfolding is_allowed
waits-calling s h = ground arith

waits-retry :
    (s : String)
    → is_allowed s "retry_pending" ≡ true
    → (is_one_of s waiting ≡ true) ⊎ (s ≡ "calling")
unfolding is_allowed
waits-retry s h = ground (arith, str_eq_iff s "calling")

failed_not_waiting : is_one_of "failed" waiting ≡ false
unfolding is_one_of
failed_not_waiting = refl

completed_not_waiting : is_one_of "completed" waiting ≡ false
unfolding is_one_of
completed_not_waiting = refl

cancelled_not_waiting : is_one_of "cancelled" waiting ≡ false
unfolding is_one_of
cancelled_not_waiting = refl

cancellable : (s : String) → is_one_of s waiting ≡ true → is_allowed s "cancelled" ≡ true
unfolding is_allowed
cancellable s h = ground arith

-- The step that the reconciliation takes.
flying_step :
    (s t : String)
    → (t ≡ "retry_pending") ⊎ (t ≡ "failed")
    → is_one_of s ("preparing" ∷ "ready" ∷ "calling" ∷ []) ≡ true
    → s ⟶ t
unfolding is_allowed
flying_step s t ends flying = elim (is_one_of-cases s "preparing" "ready" "calling" flying) [
  | inl e ↦ rw e (elim ends [ inl f ↦ rw f (allowed refl) | inr f ↦ rw f (allowed refl) ])
  | inr (inl e) ↦ rw e (elim ends [ inl f ↦ rw f reset | inr f ↦ rw f give_up ])
  | inr (inr e) ↦ rw e (elim ends [ inl f ↦ rw f (allowed refl) | inr f ↦ rw f (allowed refl) ])
]

-- A row that goes to an allowed state, with as many attempts.
moved :
    (a b : CallJob)
    → is_allowed a.status b.status ≡ true
    → (is_one_of b.status waiting ≡ true → Sound a → b.attempt_count < b.max_attempts)
    → (b.id ≡ a.id)
      × (b.tenant_id ≡ a.tenant_id)
      × (b.lead_id ≡ a.lead_id)
      × (b.customer_id ≡ a.customer_id)
    → (b.max_attempts ≡ a.max_attempts) × (b.attempt_count ≡ a.attempt_count)
    → Becomes a b
moved a b step left (i, t, l, c) (m, n) = record {
  same_id = i;
  same_tenant = t;
  same_lead = l;
  same_customer = c;
  same_limit = m;
  path = then (allowed step) here;
  more = omega arith;
  sound = λ h. record { capped = omega (arith, h.capped); left = λ w. left w h };
}

module _ (eng : Engine) (j : CallJob) where
  pub set_status-Becomes :
      (s : String) (code : Option String)
      → is_allowed j.status s ≡ true
      → (is_one_of s waiting ≡ true → Sound j → j.attempt_count < j.max_attempts)
      → Becomes j (set_status eng s code j)
  set_status-Becomes s code step left =
      moved j (set_status eng s code j) step left (refl, refl, refl, refl) (refl, refl)

  pub preparing-Becomes :
      (code : Option String)
      → is_allowed j.status "preparing" ≡ true
      → Becomes j (set_status eng "preparing" code j)
  preparing-Becomes code step =
      set_status-Becomes "preparing" code step (λ _ h. h.left (waits-preparing j.status step))

  pub ready-Becomes :
      (code : Option String)
      → is_allowed j.status "ready" ≡ true
      → Becomes j (set_status eng "ready" code j)
  ready-Becomes code step =
      set_status-Becomes "ready" code step (λ _ h. h.left (waits-ready j.status step))

  pub cancelled-Becomes :
      (code : Option String)
      → is_allowed j.status "cancelled" ≡ true
      → Becomes j (set_status eng "cancelled" code j)
  unfolding is_one_of
  cancelled-Becomes code step = set_status-Becomes "cancelled" code step (λ w h. absurd (cc))

  pub retry-Becomes :
      (code : Option String)
      → j.status ≢ "calling"
      → is_allowed j.status "retry_pending" ≡ true
      → Becomes j (set_status eng "retry_pending" code j)
  retry-Becomes code quiet step = set_status-Becomes "retry_pending" code step λ _ h.
      elim (waits-retry j.status step) [ inl w ↦ h.left w | inr calling ↦ absurd (quiet calling) ]

  pub begin_attempt-Becomes : is_allowed j.status "calling" ≡ true → Becomes j (begin_attempt eng j)
  unfolding is_one_of
  begin_attempt-Becomes step = record {
    same_id = refl;
    same_tenant = refl;
    same_lead = refl;
    same_customer = refl;
    same_limit = refl;
    path = then (allowed step) here;
    more = omega arith;
    sound = λ h. record {
      capped = omega (arith, h.left (waits-calling j.status step));
      left = λ w. absurd (cc);
    };
  }

  -- What `record_call_completed` writes.
  pub finish_job-Becomes :
      (now : ℕ) (outcome : String) (code : Option String)
      → is_allowed j.status (next_state now j outcome code).next_status ≡ true
      → Becomes j (finish_job eng (next_state now j outcome code) j)
  unfolding next_state
  finish_job-Becomes now outcome code step =
      moved j (finish_job eng (next_state now j outcome code) j) step
        (λ w h. ground (arith, failed_not_waiting, completed_not_waiting)) (refl, refl, refl, refl)
        (refl, refl)

  -- What the reconciliation writes to a job in flight.
  pub time_out-Becomes :
      is_one_of j.status ("preparing" ∷ "ready" ∷ "calling" ∷ []) ≡ true
      → Becomes j (time_out eng (new_status_of j) j)
  time_out-Becomes flying = record {
    same_id = refl;
    same_tenant = refl;
    same_lead = refl;
    same_customer = refl;
    same_limit = refl;
    path = elim (Bool-cases (ltb j.attempt_count j.max_attempts)) [
      | inl e ↦ rw e (then (flying_step j.status "retry_pending" (inl refl) flying) here)
      | inr e ↦ rw e (then (flying_step j.status "failed" (inr refl) flying) here)
    ];
    more = omega arith;
    sound = λ h. record { capped = h.capped; left = λ w. ground (arith, failed_not_waiting) };
  }

  pub cancel_job-Becomes : is_one_of j.status waiting ≡ true → Becomes j (cancel_job eng j)
  cancel_job-Becomes pending =
      moved j (cancel_job eng j) (cancellable j.status pending)
        (λ w h. ground (arith, cancelled_not_waiting)) (refl, refl, refl, refl) (refl, refl)
