-- ===== src/Agent/Jobs.antt =====
-- The life of a call job: the states that it goes through, and the attempts that it uses up.
use realesatecrm.Base.{
  ◌≤◌, ◌<◌, ◌≡◌, refl, ◌⊎◌, inl, inr, String, true, false, List, [], ◌∷◌, arith, str_eq_iff, subst,
  sym, ◌∙◌,
}
use realesatecrm.Db.Rows.{CallJob}
use realesatecrm.Agent.Transitions.{is_one_of, is_allowed}

-- A step of the state of a job: one that the matrix allows, or the reconciliation of a job that is
-- stuck in 'ready', which the matrix does not have.
infix 40 ◌⟶◌ ◌⟶*◌
pub data ◌⟶◌ : String → String → Type 0 where
  allowed : {s t : String} → is_allowed s t ≡ true → s ⟶ t
  reset : "ready" ⟶ "retry_pending"
  give_up : "ready" ⟶ "failed"

pub data ◌⟶*◌ : String → String → Type 0 where
  here : {s : String} → s ⟶* s
  then : {s t u : String} → s ⟶ t → t ⟶* u → s ⟶* u

pub ⟶*-trans : {s t u : String} → s ⟶* t → t ⟶* u → s ⟶* u
⟶*-trans here q = q
⟶*-trans (then e p) q = then e (⟶*-trans p q)

-- The states in which another attempt is still to come.
abbrev pub waiting : List String
waiting = "queued" ∷ "scheduled" ∷ "preparing" ∷ "ready" ∷ "retry_pending" ∷ []

-- No more attempts than allowed, and one left while another is to come.
pub record Sound (j : CallJob) : Type 0 where
  pub capped : j.attempt_count ≤ j.max_attempts
  pub left : is_one_of j.status waiting ≡ true → j.attempt_count < j.max_attempts

-- A later version of a job.
pub record Becomes (a b : CallJob) : Type 0 where
  pub same_id : b.id ≡ a.id
  pub same_tenant : b.tenant_id ≡ a.tenant_id
  pub same_lead : b.lead_id ≡ a.lead_id
  pub same_customer : b.customer_id ≡ a.customer_id
  pub same_limit : b.max_attempts ≡ a.max_attempts
  pub path : a.status ⟶* b.status
  pub more : a.attempt_count ≤ b.attempt_count
  pub sound : Sound a → Sound b

-- A job that began as `create_call_job` makes it.
pub record Born (b : CallJob) : Type 0 where
  pub from : ("queued" ⟶* b.status) ⊎ (b.status ≡ "cancelled")
  pub is_sound : Sound b

pub Becomes-refl : (a : CallJob) → Becomes a a
Becomes-refl a = record {
  same_id = refl;
  same_tenant = refl;
  same_lead = refl;
  same_customer = refl;
  same_limit = refl;
  path = here;
  more = omega arith;
  sound = λ h. h;
}

pub Becomes-trans : (a b c : CallJob) → Becomes a b → Becomes b c → Becomes a c
Becomes-trans a b c p q = record {
  same_id = cc;
  same_tenant = cc;
  same_lead = cc;
  same_customer = cc;
  same_limit = cc;
  path = ⟶*-trans p.path q.path;
  more = omega (arith, p.more, q.more);
  sound = λ h. q.sound (p.sound h);
}

abbrev pub finished : List String
finished = "completed" ∷ "failed" ∷ "cancelled" ∷ []

pub is_one_of-cases :
    (s a b c : String) → is_one_of s (a ∷ b ∷ c ∷ []) ≡ true → (s ≡ a) ⊎ (s ≡ b) ⊎ (s ≡ c)
unfolding is_one_of
is_one_of-cases s a b c h = ground (arith, str_eq_iff s a, str_eq_iff s b, str_eq_iff s c)

-- No step leaves a finished state.
finished-⟶ : {s t : String} → s ⟶ t → is_one_of s finished ≡ true → ⊥
unfolding is_allowed is_one_of
finished-⟶ {s} {t} (allowed h) f = elim (is_one_of-cases s "completed" "failed" "cancelled" f) [
  | inl e ↦ stuck "completed" e refl
  | inr (inl e) ↦ stuck "failed" e refl
  | inr (inr e) ↦ stuck "cancelled" e refl
]
  where
    stuck : (u : String) → s ≡ u → is_allowed u t ≡ false → ⊥
    stuck u e none_allowed = let allowed_here = subst (λ x. is_allowed x t ≡ true) e h in cc
finished-⟶ reset f = cc
finished-⟶ give_up f = cc

pub finished-⟶* : {s t : String} → s ⟶* t → is_one_of s finished ≡ true → t ≡ s
finished-⟶* here f = refl
finished-⟶* (then e p) f = absurd (finished-⟶ e f)

pub Born-Becomes : (a b : CallJob) → Born a → Becomes a b → Born b
unfolding is_one_of
Born-Becomes a b born p = record {
  from = elim born.from [
    | inl from_queue ↦ inl (⟶*-trans from_queue p.path)
    | inr cancelled ↦ inr (
        finished-⟶* p.path (subst (λ s. is_one_of s finished ≡ true) (sym cancelled) refl)
        ∙ cancelled)
  ];
  is_sound = p.sound born.is_sound;
}
