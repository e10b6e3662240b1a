-- ===== src/Agent/Reconcile.antt =====
-- `find_and_reconcile_stuck_jobs`: what it does to the jobs.
use realesatecrm.Base.{
  ℕ, ◌≡◌, refl, sym, subst, Bool, true, Option, List, [], ◌∷◌, arith, select, All, Bool-cases, ◌==◌,
  ◌⊎◌, inl, inr,
}
use realesatecrm.Core.Errors.{ok}
use realesatecrm.Db.Rows.{Db, CallJob}
use realesatecrm.Db.Action.{Engine, pure}
use realesatecrm.Db.Table.{update_where}
use realesatecrm.Db.Growth.{Grows-update_one}
use realesatecrm.Agent.Transitions.{is_one_of}
use realesatecrm.Agent.Repository.{
  is_stuck, new_status_of, time_out, reconcile_job, reconcile_jobs, find_and_reconcile_stuck_jobs,
}
use realesatecrm.Agent.Jobs.{Becomes, Becomes-refl}
use realesatecrm.Agent.Steps.{time_out-Becomes}
use realesatecrm.Agent.Moves.{NoneNew, Evolves, Evolves-IsChange}
use realesatecrm.Agent.Identity.{
  Distinct, Distinct-select, Only, Only-update, select-Only, Continues, Continues-IsChange,
  Evolves-Continues,
}
use realesatecrm.Agent.Keeps.{pure-Keeps}
use realesatecrm.Agent.Logic.{
  MovesFrom, Moves, >>=-MovesFrom, Keeps-Moves, Keeps-MovesFrom, >>=-MovesThen,
}

abbrev pub flying : CallJob → Bool
flying j = is_one_of j.status ("preparing" ∷ "ready" ∷ "calling" ∷ [])

-- What the loop still has to do: jobs in flight, each the only one of its id.
abbrev ToDo : List CallJob → List CallJob → Type 0
ToDo jobs xs = Distinct jobs × All (λ j. flying j ≡ true) jobs × All (Only xs) jobs

module _ (eng : Engine) where
  abbrev pub out : CallJob → CallJob → CallJob
  out k = time_out eng (new_status_of k)

  reconcile_job-cases :
      (k : CallJob) (db : Db)
      → ((reconcile_job eng k db).1.call_jobs ≡ db.call_jobs)
        ⊎ ((reconcile_job eng k db).1.call_jobs
            ≡ update_where (λ j. j.id == k.id) (out k) db.call_jobs)
  unfolding reconcile_job
  reconcile_job-cases k db = ground arith

  reconcile_job-Evolves :
      (k : CallJob) (jobs : List CallJob)
      → MovesFrom Evolves (ToDo (k ∷ jobs)) (reconcile_job eng k)
  unfolding MovesFrom
  reconcile_job-Evolves k jobs db (_, up, only) = elim (reconcile_job-cases k db) [
    | inl same ↦ subst (Evolves db.call_jobs) (sym same) (Evolves-IsChange.same db.call_jobs)
    | inr done ↦ subst (Evolves db.call_jobs) (sym done) (
        Grows-update_one NoneNew Becomes Becomes-refl (λ j. j.id == k.id) (out k) k db.call_jobs
          only.0 (time_out-Becomes eng k up.0))
  ]

  pub reconcile_job-done :
      (k : CallJob) (db db' : Db) (u : Unit {0})
      → reconcile_job eng k db ≡ (ok u, db')
      → db'.call_jobs ≡ update_where (λ j. j.id == k.id) (out k) db.call_jobs
  unfolding reconcile_job
  reconcile_job-done k db db' u h = ground arith

  ToDo-next :
      (k : CallJob) (jobs : List CallJob) (db db' : Db) (u : Unit {0})
      → ToDo (k ∷ jobs) db.call_jobs
      → reconcile_job eng k db ≡ (ok u, db')
      → ToDo jobs db'.call_jobs
  ToDo-next k jobs db db' u ((off, apart), up, only) h = (
    apart,
    up.1,
    subst (λ xs. All (Only xs) jobs) (sym (reconcile_job-done k db db' u h))
        (Only-update k.id (out k) db.call_jobs jobs (λ j. refl) off only.1),
  )

  reconcile_jobs-Evolves :
      (jobs : List CallJob) → MovesFrom Evolves (ToDo jobs) (reconcile_jobs eng jobs)
  unfolding reconcile_jobs
  reconcile_jobs-Evolves [] = Keeps-MovesFrom Evolves (ToDo []) (pure []) (pure-Keeps [])
  reconcile_jobs-Evolves (k ∷ jobs) =
      >>=-MovesThen Evolves (reconcile_job eng k) _ (ToDo (k ∷ jobs)) (ToDo jobs)
        (reconcile_job-Evolves k jobs) (ToDo-next k jobs)
        λ _.
          >>=-MovesFrom Evolves (reconcile_jobs eng jobs) _ (ToDo jobs)
            (reconcile_jobs-Evolves jobs)
            λ done. Keeps-Moves Evolves (pure ((k.id, new_status_of k) ∷ done)) (pure-Keeps _)

  found_flying :
      (scope : Option ℕ) (minutes : ℕ) (db : Db) (xs : List CallJob)
      → All (λ j. flying j ≡ true) (select (is_stuck eng scope minutes db) xs)
  found_flying scope minutes db [] = tt
  found_flying scope minutes db (j ∷ xs) = elim (Bool-cases (is_stuck eng scope minutes db j)) [
    | inl e ↦ rw e (ground (arith, e), found_flying scope minutes db xs)
    | inr e ↦ rw e (found_flying scope minutes db xs)
  ]

  pub reconcile-Continues :
      (scope : Option ℕ) (minutes : ℕ)
      → Moves Continues (find_and_reconcile_stuck_jobs eng scope minutes)
  unfolding find_and_reconcile_stuck_jobs Moves MovesFrom Continues
  reconcile-Continues scope minutes db apart =
      Evolves-Continues db.call_jobs _
        (reconcile_jobs-Evolves (select (is_stuck eng scope minutes db) db.call_jobs) db (
          Distinct-select (is_stuck eng scope minutes db) db.call_jobs apart,
          found_flying scope minutes db db.call_jobs,
          select-Only (is_stuck eng scope minutes db) db.call_jobs apart,
        ))
        apart
