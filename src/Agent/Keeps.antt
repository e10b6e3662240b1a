-- ===== src/Agent/Keeps.antt =====
-- The coroutines of backend/app/agent that leave the call jobs alone.
use realesatecrm.Base.{ℕ, refl, String, Text, Bool, Option, none, some, List, [], ◌∷◌, arith}
use realesatecrm.Core.Errors.{AppError, Raised, raised}
use realesatecrm.Db.Rows.{Db, CallJob, CallAttempt}
use realesatecrm.Db.Action.{Engine, gets, pure, one, one_or_none, or_raise}
use realesatecrm.Events.{publish_event}
use realesatecrm.Agent.Repository.{
  check_do_not_call, write_follow_up, save_agent_call_context_snapshot,
}
use realesatecrm.Agent.Gateway.{write_attempt, save_summary, insert_call, insert_attempt}
use realesatecrm.Agent.Logic.{Keeps}

module _ {A : Type 0} where
  pub gets-Keeps : (f : Db → A) → Keeps (gets f)
  unfolding Keeps
  gets-Keeps f db = refl

  pub pure-Keeps : (a : A) → Keeps (pure a)
  unfolding Keeps
  pure-Keeps a db = refl

  pub one_or_none-Keeps : (rows : List A) → Keeps (one_or_none rows)
  unfolding Keeps
  one_or_none-Keeps [] db = refl
  one_or_none-Keeps (a ∷ []) db = refl
  one_or_none-Keeps (a ∷ b ∷ r) db = refl

  pub one-Keeps : (rows : List A) → Keeps (one rows)
  unfolding Keeps
  one-Keeps [] db = refl
  one-Keeps (a ∷ []) db = refl
  one-Keeps (a ∷ b ∷ r) db = refl

  pub or_raise-Keeps : (o : Option A) (e : AppError) → Keeps (or_raise o e)
  unfolding Keeps
  or_raise-Keeps none e db = refl
  or_raise-Keeps (some a) e db = refl

pub raised-Keeps : (A : Type 0) (e : Raised) → Keeps {A = A} (λ db. (raised e, db))
unfolding Keeps
raised-Keeps A e db = refl

pub check_do_not_call-Keeps : (t customer : ℕ) → Keeps (check_do_not_call t customer)
unfolding Keeps check_do_not_call
check_do_not_call-Keeps t customer db = ground arith

module _ (eng : Engine) (t : ℕ) where
  pub publish_event-Keeps :
      (event_type : String) (contact lead : Option ℕ)
      → Keeps (publish_event eng t event_type contact lead)
  unfolding Keeps publish_event
  publish_event-Keeps event_type contact lead db = ground arith

  pub save_snapshot-Keeps :
      (job lead customer : ℕ) → Keeps (save_agent_call_context_snapshot eng t job lead customer)
  unfolding Keeps save_agent_call_context_snapshot
  save_snapshot-Keeps job lead customer db = ground arith

  pub insert_attempt-Keeps : (id : ℕ) (j : CallJob) → Keeps (insert_attempt eng t id j)
  unfolding Keeps insert_attempt
  insert_attempt-Keeps id j db = ground arith

  pub insert_call-Keeps :
      (j : CallJob) (uuid : ℕ) (from to : Text) → Keeps (insert_call eng t j uuid from to)
  unfolding Keeps insert_call
  insert_call-Keeps j uuid from to db = ground arith

  pub write_follow_up-Keeps : (id : ℕ) (f : _) → Keeps (write_follow_up eng t id f)
  unfolding Keeps write_follow_up
  write_follow_up-Keeps id f db = ground arith

pub write_attempt-Keeps :
    (eng : Engine) (hit : CallAttempt → Bool) (f : CallAttempt → CallAttempt)
    → Keeps (write_attempt eng hit f)
unfolding Keeps write_attempt
write_attempt-Keeps eng hit f db = ground arith

pub save_summary-Keeps :
    (eng : Engine) (call : Option ℕ) (summary : Option Text) → Keeps (save_summary eng call summary)
unfolding Keeps save_summary
save_summary-Keeps eng none summary db = refl
save_summary-Keeps eng (some c) none db = refl
save_summary-Keeps eng (some c) (some s) db = ground arith
