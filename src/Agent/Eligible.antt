-- ===== src/Agent/Eligible.antt =====
-- backend/app/agent/orchestrator.py, `get_next_eligible_jobs`: the joined rows, their order, and the
-- first of them.
use realesatecrm.Base.{
  ℕ, Bool, not, ◌&&◌, ◌||◌, Option, List, [], ◌∷◌, ◌++◌, map, ◌==◌, ltb, leb, select, take,
  if◌then◌else◌,
}
use realesatecrm.Db.Rows.{Db, CallJob, Lead, Customer}
use realesatecrm.Db.Action.{Action, gets}
use realesatecrm.Db.Table.{in_scope}
use realesatecrm.Agent.Transitions.{is_one_of}

-- A row of the join: the job, and the columns of its lead and its customer that the query reads.
pub record Due : Type 0 where
  pub job : CallJob
  pub lead_score : ℕ
  pub do_not_call : Bool

-- What WHERE asks of the job.
unfoldable pub is_due : ℕ → Option ℕ → CallJob → Bool
unfolding is_one_of
is_due now scope j =
    is_one_of j.status ("queued" ∷ "retry_pending" ∷ [])
    && leb j.scheduled_at now
    && ltb j.attempt_count j.max_attempts
    && in_scope scope j.tenant_id

abbrev pub with_customers : CallJob → Lead → List Customer → List Due
with_customers j l [] = []
with_customers j l (c ∷ cs) =
    record { job = j; lead_score = l.lead_score; do_not_call = c.do_not_call }
    ∷ with_customers j l cs

abbrev pub with_leads : CallJob → List Lead → List Customer → List Due
with_leads j [] cs = []
with_leads j (l ∷ ls) cs = with_customers j l cs ++ with_leads j ls cs

-- A job with the leads and the customers that it names.
abbrev pub joined : Db → CallJob → List Due
joined db j =
    with_leads j (select (λ (l : Lead). l.id == j.lead_id) db.leads)
      (select (λ (c : Customer). c.id == j.customer_id) db.customers)

unfoldable pub join_jobs : Db → List CallJob → List Due
join_jobs db [] = []
join_jobs db (j ∷ js) = joined db j ++ join_jobs db js

abbrev pub is_eligible : ℕ → Option ℕ → Due → Bool
is_eligible now scope r = is_due now scope r.job && not r.do_not_call

unfoldable pub eligible_rows : ℕ → Option ℕ → Db → List Due
unfolding join_jobs is_due
eligible_rows now scope db = select (is_eligible now scope) (join_jobs db db.call_jobs)

-- `ORDER BY priority ASC, lead_score DESC, scheduled_at ASC`
unfoldable pub precedes : Due → Due → Bool
precedes a b =
    ltb a.job.priority b.job.priority
    || (a.job.priority == b.job.priority
        && (ltb b.lead_score a.lead_score
            || (a.lead_score == b.lead_score && leb a.job.scheduled_at b.job.scheduled_at)))

unfoldable pub place : Due → List Due → List Due
unfolding precedes
place r [] = r ∷ []
place r (s ∷ ss) = if precedes r s then r ∷ s ∷ ss else s ∷ place r ss

unfoldable pub in_order : List Due → List Due
unfolding place
in_order [] = []
in_order (r ∷ rs) = place r (in_order rs)

unfoldable pub get_next_eligible_jobs : ℕ → Option ℕ → ℕ → Action (List CallJob)
unfolding eligible_rows in_order
get_next_eligible_jobs now scope limit =
    gets (λ db. map (λ (r : Due). r.job) (take limit (in_order (eligible_rows now scope db))))
